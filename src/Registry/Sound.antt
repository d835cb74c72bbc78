-- ===== src/Registry/Sound.antt =====
-- A sound registry: every layer of the model is held by exactly one online host, and every pending
-- host holds a plan that splits its donor's blocks.
pub mod Keyed
pub mod Stays
pub mod HandOver
pub mod Ready
pub mod Donor
pub mod Join
pub mod Leave
pub mod Reserve
pub mod Beats
pub mod Choose
pub mod Reap
pub mod Total
use blitzwing.Base.{ℕ, ◌≡◌, ◌≢◌, Bool, true, false, ◌&&◌, Option, none, some, List, [], ◌∷◌}
use blitzwing.Base.Int.{ℤ, pos, leb_ℤ, ltb_ℤ, ◌≤ℤ◌, ◌<ℤ◌}
use blitzwing.Base.Text.{Text, is_empty, or_empty}
use blitzwing.Base.Dict.{Dict, lookup}
use blitzwing.Registry.Range.{Range, range}
use blitzwing.Registry.Host.{HostRecord, mother, pending, online, offline, mother_id}
use blitzwing.Registry.Cover.{cover, one_if}

-- The key of each host is its id, which is not empty and not repeated.
abbrev pub IsKeyed : Dict HostRecord → Type 0
IsKeyed [] = Unit {0}
IsKeyed ((j, h) ∷ d) = (h.host_id ≡ j) × (lookup j d ≡ none) × (is_empty j ≡ false) × IsKeyed d

-- The pending host's plan cuts the blocks that its online donor holds now.
pub record IsPlanned (d : Dict HostRecord) (host donor : HostRecord) : Type 0 where
  pub named : is_empty (or_empty host.donor_host_id) ≡ false
  pub donor_found : lookup (or_empty host.donor_host_id) d ≡ some donor
  pub donor_online : donor.status ≡ online
  pub shrink :
      host.donor_shrink_to ≡ some (range donor.block_indices.start host.block_indices.start)
  pub assigned : host.pending_range ≡ some host.block_indices
  pub meets : host.block_indices.end ≡ donor.block_indices.end
  pub leaves_some : donor.block_indices.start <ℤ host.block_indices.start

pub record IsHost (h : HostRecord) : Type 0 where
  pub nonempty : h.block_indices.start <ℤ h.block_indices.end
  pub live : h.status ≢ offline

pub record IsMother (d : Dict HostRecord) (m : HostRecord) : Type 0 where
  pub found : lookup mother_id d ≡ some m
  pub up : m.status ≡ online
  pub is_role : m.role ≡ mother

pub record IsSound (total_layers : ℤ) (d : Dict HostRecord) : Type 0 where
  pub keyed : IsKeyed d
  pub exact : (k : ℤ) → cover k d ≡ one_if (leb_ℤ (pos 0) k && ltb_ℤ k total_layers)
  pub hosts : (j : Text) (h : HostRecord) → lookup j d ≡ some h → IsHost h
  pub has_mother : (m : HostRecord) × IsMother d m
  pub plans :
      (j : Text) (h : HostRecord)
      → lookup j d ≡ some h
      → h.status ≡ pending
      → (donor : HostRecord) × IsPlanned d h donor
  pub single :
      (i j : Text) (a b : HostRecord)
      → lookup i d ≡ some a
      → lookup j d ≡ some b
      → a.status ≡ pending
      → b.status ≡ pending
      → i ≡ j
