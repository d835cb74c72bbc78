-- ===== src/Examples/Mothers.antt =====
-- Requests to the discovery service.
use blitzwing.Base.{◌≡◌, refl, not, ◌&&◌, none, some, [], ◌∷◌, arith, is_some, if◌then◌else◌}
use blitzwing.Base.Int.{pos}
use blitzwing.Base.Text.{codes, text_eq}
use blitzwing.Base.Dict.{lookup}
use blitzwing.Discovery.{
  MotherRecord, MotherUpdate, answer, http_error, MotherCreate, Table, created, register_mother,
  register, serve,
}
use blitzwing.Discovery.Url.{unquote}
use blitzwing.Discovery.Laws.{IsTable, serve-IsTable, register_lem}

abbrev row_a : MotherRecord
row_a = record {
  model = codes "org/a";
  mother_url = codes "http://a";
  total_layers = pos 4;
  updated_at = 1;
}

abbrev table : Table
table =
    (
      codes "org/a",
      record {
        model = codes "org/a";
        mother_url = codes "http://a";
        total_layers = pos 4;
        updated_at = 1;
      },
    )
    ∷ []

table-IsTable : IsTable table
unfolding lookup
table-IsTable = (refl, omega arith, refl, tt)

abbrev body : MotherCreate
body = record { model = codes "b"; mother_url = codes "http://b/"; total_layers = pos 8 }

serve-IsTable_example :
    IsTable (serve (codes "s") (some (codes "Bearer s")) 2 (register body) table).1
serve-IsTable_example =
    serve-IsTable (codes "s") (some (codes "Bearer s")) 2 (register body) table table-IsTable

register_lem_example :
    ((register_mother 2 body table).0
      ≡ (if is_some (lookup (codes "b") table) then http_error 409 else answer (created 2 body)))
    × (lookup (codes "b") (register_mother 2 body table).1 ≡ (
        if text_eq (codes "b") (codes "b") && not (is_some (lookup (codes "b") table))
        then some (created 2 body)
        else lookup (codes "b") table))
register_lem_example = register_lem 2 body table (codes "b") refl

abbrev change : MotherUpdate
change = record { mother_url = some (codes "http://n/"); total_layers = none }

unquote_test : unquote (codes "org%2Fa") ≡ codes "org/a"
unfolding unquote
unquote_test = refl
