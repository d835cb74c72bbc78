-- ===== src/Discovery/Laws.antt =====
-- What the requests do to the table.
use blitzwing.Base.{
  ℕ, ◌≡◌, refl, ◌∙◌, true, ◌&&◌, not, inl, inr, Option, none, some, [], ◌∷◌, arith, Bool-cases,
  Option-cases, is_some, if◌then◌else◌,
}
use blitzwing.Base.Int.{pos, ◌<ℤ◌}
use blitzwing.Base.Text.{Text, text_eq, text_eq_iff}
use blitzwing.Base.Dict.{lookup, insert, erase, lookup-insert, lookup-erase_ne}
use blitzwing.Discovery.Url.{unquote}
use blitzwing.Discovery.{
  answer, http_error, MotherRecord, MotherCreate, MotherUpdate, Table, require_admin,
  register_mother, update_mother, delete_mother, created, updated, Request, serve, register, update,
  delete, is_create, is_update, has_change,
}

-- A guarded request whose token is refused answers with the refusal and leaves the table alone.
refused_leaves_table :
    (admin_token : Text) (authorization : Option Text) (now : ℕ) (req : Request) (t : Table) (n : ℕ)
    → require_admin admin_token authorization ≡ http_error n
    → serve admin_token authorization now req t ≡ (http_error n, t)
unfolding serve
refused_leaves_table admin_token authorization now req t n h = ground arith

-- Every key is its row's model, no model is listed twice, and every row has a layer.
abbrev pub IsTable : Table → Type 0
IsTable [] = Unit {0}
IsTable ((j, row) ∷ t) =
    (row.model ≡ j) × (pos 0 <ℤ row.total_layers) × (lookup j t ≡ none) × IsTable t

insert-IsTable :
    (row : MotherRecord) (j : Text) (t : Table)
    → row.model ≡ j
    → pos 0 <ℤ row.total_layers
    → IsTable t
    → IsTable (insert j row t)
unfolding insert lookup
insert-IsTable row j [] own full h = (own, full, refl, tt)
insert-IsTable row j ((i, x) ∷ t) own full h = elim (Bool-cases (text_eq j i)) [
  | inl hit ↦ rw hit ((own ∙ (text_eq_iff j i).0 hit), full, h.2, h.3)
  | inr miss ↦ rw miss (
    h.0,
    h.1,
    lookup-insert j i row t ∙ (ground (arith, text_eq_iff i j, text_eq_iff j i)),
    insert-IsTable row j t own full h.3,
  )
]

erase-IsTable : (j : Text) (t : Table) → IsTable t → IsTable (erase j t)
unfolding erase
erase-IsTable j [] h = h
erase-IsTable j ((i, x) ∷ t) h = elim (Bool-cases (text_eq j i)) [
  | inl hit ↦ rw hit h.3
  | inr miss ↦ rw miss (
    h.0,
    h.1,
    lookup-erase_ne j i t (λ e. ground (arith, text_eq_iff j i)) ∙ h.2,
    erase-IsTable j t h.3,
  )
]

row_layers :
    (j : Text) (row : MotherRecord) (t : Table)
    → IsTable t
    → lookup j t ≡ some row
    → pos 0 <ℤ row.total_layers
unfolding lookup
row_layers j row [] h e = cc
row_layers j row ((i, x) ∷ t) h e = ground (arith, row_layers j row t h.3)

lookup-erase_self : (j : Text) (t : Table) → IsTable t → lookup j (erase j t) ≡ none
unfolding lookup erase
lookup-erase_self j [] h = refl
lookup-erase_self j ((i, x) ∷ t) h = ground (arith, text_eq_iff j i, lookup-erase_self j t h.3)

register-IsTable :
    (now : ℕ) (body : MotherCreate) (t : Table) → IsTable t → IsTable (register_mother now body t).1
unfolding register_mother
register-IsTable now body t h = ground (arith, insert-IsTable (created now body) body.model t)

update-IsTable :
    (now : ℕ) (path : Text) (body : MotherUpdate) (t : Table)
    → IsTable t
    → IsTable (update_mother now path body t).1
unfolding update_mother
update-IsTable now path body t h = elim (Option-cases (lookup (unquote path) t)) [
  | inl missing ↦ ground arith
  | inr (row, e) ↦ ground (
    arith,
    row_layers (unquote path) row t h,
    insert-IsTable (updated now (unquote path) body row) (unquote path) t,
  )
]

delete-IsTable : (path : Text) (t : Table) → IsTable t → IsTable (delete_mother path t).1
unfolding delete_mother
delete-IsTable path t h = ground (arith, erase-IsTable (unquote path) t)

-- From a well-formed table, every guarded request, refused or not, leaves a well-formed table.
pub serve-IsTable :
    (admin_token : Text) (authorization : Option Text) (now : ℕ) (req : Request) (t : Table)
    → IsTable t
    → IsTable (serve admin_token authorization now req t).1
unfolding serve
serve-IsTable admin_token authorization now (register body) t h =
    ground (arith, register-IsTable now body t h)
serve-IsTable admin_token authorization now (update path body) t h =
    ground (arith, update-IsTable now path body t h)
serve-IsTable admin_token authorization now (delete path) t h =
    ground (arith, delete-IsTable path t h)

-- A valid body for a model that is not there is stored under its model; for a model that is there
-- the answer is 409 and its row stays. Every other model is found as before.
pub register_lem :
    (now : ℕ) (body : MotherCreate) (t : Table) (m : Text)
    → is_create body ≡ true
    → ((register_mother now body t).0
        ≡ (if is_some (lookup body.model t) then http_error 409 else answer (created now body)))
      × (lookup m (register_mother now body t).1 ≡ (
          if text_eq m body.model && not (is_some (lookup body.model t))
          then some (created now body)
          else lookup m t))
unfolding register_mother
register_lem now body t m valid = (
  ground arith,
  ground (arith, lookup-insert body.model m (created now body) t, text_eq_iff m body.model),
)

-- A valid update with a change, of a model that is there, is answered with the updated row, which
-- is stored under the model; every other model is found as before.
pub update_lem :
    (now : ℕ) (path : Text) (body : MotherUpdate) (row : MotherRecord) (t : Table) (m : Text)
    → is_update body ≡ true
    → has_change body ≡ true
    → lookup (unquote path) t ≡ some row
    → ((update_mother now path body t).0 ≡ answer (updated now (unquote path) body row))
      × (lookup m (update_mother now path body t).1 ≡ (
          if text_eq m (unquote path)
          then some (updated now (unquote path) body row)
          else lookup m t))
unfolding update_mother
update_lem now path body row t m valid change found = (
  ground arith,
  ground (arith, lookup-insert (unquote path) m (updated now (unquote path) body row) t),
)

-- After a delete on a well-formed table the model is not found, a second delete is answered 404,
-- and every other model is found as before.
pub delete_lem :
    (path m : Text) (t : Table)
    → IsTable t
    → (lookup m (delete_mother path t).1 ≡ (if text_eq m (unquote path) then none else lookup m t))
      × ((delete_mother path (delete_mother path t).1).0 ≡ http_error 404)
unfolding delete_mother
delete_lem path m t h = elim (Option-cases (lookup (unquote path) t)) [
  | inl missing ↦ (ground (arith, text_eq_iff m (unquote path)), ground arith)
  | inr (row, e) ↦ elim (Bool-cases (text_eq m (unquote path))) [
    | inl hit ↦
        let same : m ≡ unquote path = (text_eq_iff m (unquote path)).0 hit in
        (
          ground (arith, lookup-erase_self (unquote path) t h),
          ground (arith, lookup-erase_self (unquote path) t h),
        )
    | inr miss ↦ (
      ground (
        arith,
        lookup-erase_ne (unquote path) m t (λ q. ground (arith, text_eq_iff m (unquote path))),
      ),
      ground (arith, lookup-erase_self (unquote path) t h),
    )
  ]
]
