-- ===== src/Registry/Donor.antt =====
-- The donor of a join: `_largest_donor_locked`, `_effective_donor_range` and `max_carveable`.
use blitzwing.Base.{Bool, false, ◌&&◌, Option, none, some, List, [], ◌∷◌, if◌then◌else◌}
use blitzwing.Base.Int.{ℤ, pos, ltb_ℤ, max_ℤ, ◌-ℤ◌}
use blitzwing.Base.Text.{Text, text_eq}
use blitzwing.Base.Dict.{values}
use blitzwing.Registry.Range.{Range, range, size}
use blitzwing.Registry.Host.{HostRecord, SwarmRegistry, is_online, is_pending, keep}

-- max(hosts, key=layers_hosted): the first of the largest
unfoldable pub largest_from : HostRecord → List HostRecord → HostRecord
largest_from best [] = best
largest_from best (h ∷ hs) =
    largest_from (if ltb_ℤ best.layers_hosted h.layers_hosted then h else best) hs

abbrev pub largest_of : List HostRecord → Option HostRecord
unfolding largest_from
largest_of [] = none
largest_of (h ∷ hs) = some (largest_from h hs)

unfoldable pub largest_donor : SwarmRegistry → Option HostRecord
unfolding largest_of keep values
largest_donor r = largest_of (keep is_online (values r.hosts))

-- `h.donor_host_id == donor.host_id`
abbrev pub is_donor_of : Text → HostRecord → Bool
unfolding text_eq
is_donor_of donor_id h = elim h.donor_host_id [ none ↦ false | some d ↦ text_eq d donor_id ]

-- The donor's end, lowered to the start of each pending reservation on it.
unfoldable pub reserved_end : Text → ℤ → List HostRecord → ℤ
unfolding is_donor_of
reserved_end donor_id e [] = e
reserved_end donor_id e (h ∷ hs) =
    reserved_end donor_id
      (if is_pending h && is_donor_of donor_id h && ltb_ℤ h.block_indices.start e
        then h.block_indices.start
        else e)
      hs

unfoldable pub effective_donor_range : SwarmRegistry → HostRecord → Range
unfolding reserved_end values
effective_donor_range r donor =
    range donor.block_indices.start
      (reserved_end donor.host_id donor.block_indices.end (values r.hosts))

unfoldable pub max_carveable : SwarmRegistry → ℤ
unfolding largest_donor effective_donor_range size
max_carveable r = elim (largest_donor r) [
  | none ↦ pos 0
  | some donor ↦ max_ℤ (pos 0) (size (effective_donor_range r donor) -ℤ pos 1)
]
