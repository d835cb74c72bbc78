-- ===== src/Discovery.antt =====
-- The discovery service of discovery_service/app.py: mothers keyed by model name, behind an admin
-- token. The SQLite table is a dict on its primary key; a handler's answer is a value or the
-- status code of an HTTP error.
pub mod Url
pub mod Laws
use blitzwing.Base.{
  ℕ, Bool, true, false, not, ◌&&◌, ◌||◌, Option, none, some, List, [], ◌∷◌, ltb, leb, ◌==◌,
  if◌then◌else◌,
}
use blitzwing.Base.Int.{ℤ, pos, ltb_ℤ}
use blitzwing.Base.Text.{
  Text, codes, text_eq, truthy, or_empty, is_empty, starts_with, strip, rstrip_slash,
}
use blitzwing.Base.Dict.{Dict, lookup, insert, erase, values}
use Url.{unquote}

pub data Reply {ℓ} (A : Type ℓ) : Type ℓ where
  answer : A → Reply A
  http_error : ℕ → Reply A

pub record MotherRecord : Type 0 where
  pub model : Text
  pub mother_url : Text
  pub total_layers : ℤ
  pub updated_at : ℕ

pub record MotherCreate : Type 0 where
  pub model : Text
  pub mother_url : Text
  pub total_layers : ℤ

pub record MotherUpdate : Type 0 where
  pub mother_url : Option Text
  pub total_layers : Option ℤ

abbrev pub Table : Type 0
Table = Dict MotherRecord

-- s.removeprefix("Bearer "), of a text that starts so
abbrev pub after_bearer : Text → Text
after_bearer (b ∷ e ∷ a ∷ r ∷ e' ∷ r' ∷ sp ∷ token) = token
after_bearer s = s

unfoldable pub require_admin : Text → Option Text → Reply (Unit {0})
unfolding starts_with strip text_eq
require_admin admin_token authorization =
    if is_empty admin_token
    then http_error 500
    else if not (truthy authorization)
        || not (starts_with (or_empty authorization) (codes "Bearer "))
    then http_error 401
    else if not (text_eq (strip (after_bearer (or_empty authorization))) admin_token)
    then http_error 403
    else answer tt

-- Python's order of texts, by code points
unfoldable pub text_leb : Text → Text → Bool
text_leb [] t = true
text_leb (a ∷ s) [] = false
text_leb (a ∷ s) (b ∷ t) = ltb a b || a == b && text_leb s t

-- ORDER BY model
unfoldable pub insert_row : MotherRecord → List MotherRecord → List MotherRecord
unfolding text_leb
insert_row x [] = x ∷ []
insert_row x (y ∷ ys) = if text_leb x.model y.model then x ∷ y ∷ ys else y ∷ insert_row x ys

unfoldable pub sort_rows : List MotherRecord → List MotherRecord
unfolding insert_row
sort_rows [] = []
sort_rows (x ∷ xs) = insert_row x (sort_rows xs)

unfoldable pub list_mothers : Table → List MotherRecord
unfolding values sort_rows
list_mothers t = sort_rows (values t)

unfoldable pub get_mother : Text → Table → Reply MotherRecord
unfolding unquote lookup
get_mother model t = elim (lookup (unquote model) t) [
  | none ↦ http_error 404
  | some row ↦ answer row
]

-- The field constraints of `MotherCreate`; a body that breaks them is answered 422.
abbrev pub is_create : MotherCreate → Bool
is_create b = not (is_empty b.model) && not (is_empty b.mother_url) && ltb_ℤ (pos 0) b.total_layers

abbrev pub created : ℕ → MotherCreate → MotherRecord
unfolding rstrip_slash
created now b = record {
  model = b.model;
  mother_url = rstrip_slash b.mother_url;
  total_layers = b.total_layers;
  updated_at = now;
}

unfoldable pub register_mother : ℕ → MotherCreate → Table → Reply MotherRecord × Table
unfolding lookup insert created
register_mother now body t =
    if not (is_create body) then (http_error 422, t) else elim (lookup body.model t) [
      | some row ↦ (http_error 409, t)
      | none ↦ (answer (created now body), insert body.model (created now body) t)
    ]

abbrev pub is_update : MotherUpdate → Bool
is_update b = elim b.total_layers [ none ↦ true | some n ↦ ltb_ℤ (pos 0) n ]

abbrev pub has_change : MotherUpdate → Bool
has_change b = elim b.mother_url [
  | some u ↦ true
  | none ↦ elim b.total_layers [ some n ↦ true | none ↦ false ]
]

abbrev or_old : Option ℤ → ℤ → ℤ
or_old none old = old
or_old (some n) old = n

-- An empty URL in the body leaves the stored one.
abbrev pub updated : ℕ → Text → MotherUpdate → MotherRecord → MotherRecord
unfolding rstrip_slash
updated now model b row = record {
  model = model;
  mother_url = if truthy b.mother_url then rstrip_slash (or_empty b.mother_url) else row.mother_url;
  total_layers = or_old b.total_layers row.total_layers;
  updated_at = now;
}

unfoldable pub update_mother : ℕ → Text → MotherUpdate → Table → Reply MotherRecord × Table
unfolding unquote lookup insert updated
update_mother now path body t =
    let model = unquote path in
    if not (is_update body)
    then (http_error 422, t)
    else if not (has_change body)
    then (http_error 400, t)
    else elim (lookup model t) [
      | none ↦ (http_error 404, t)
      | some row ↦
          (answer (updated now model body row), insert model (updated now model body row) t)
    ]

unfoldable pub delete_mother : Text → Table → Reply (Unit {0}) × Table
unfolding unquote lookup erase
delete_mother path t = elim (lookup (unquote path) t) [
  | none ↦ (http_error 404, t)
  | some row ↦ (answer tt, erase (unquote path) t)
]

-- The requests that the admin token guards.
pub data Request : Type 0 where
  register : MotherCreate → Request
  update : Text → MotherUpdate → Request
  delete : Text → Request

abbrev void {ℓ} : {A : Type ℓ} → Reply A → Reply (Unit {0})
void (answer a) = answer tt
void (http_error n) = http_error n

abbrev pub handle : ℕ → Request → Table → Reply (Unit {0}) × Table
unfolding register_mother update_mother delete_mother
handle now (register body) t = let (res, t') = register_mother now body t in (void res, t')
handle now (update path body) t = let (res, t') = update_mother now path body t in (void res, t')
handle now (delete path) t = delete_mother path t

-- A guarded request: the token is checked first.
unfoldable pub serve : Text → Option Text → ℕ → Request → Table → Reply (Unit {0}) × Table
unfolding require_admin handle
serve admin_token authorization now req t = elim (require_admin admin_token authorization) [
  | http_error n ↦ (http_error n, t)
  | answer _ ↦ handle now req t
]
