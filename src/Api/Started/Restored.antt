-- ===== src/Api/Started/Restored.antt =====
-- The registry that is read back from the file of the last run.
use blitzwing.Base.{◌≡◌, refl, ◌∙◌, inl, inr, some, List, arith, Bool-cases, Option-cases}
use blitzwing.Base.Int.{ℤ}
use blitzwing.Base.Text.{Text, rstrip_slash, text_eq}
use blitzwing.Base.Dict.{Dict, lookup, modify, lookup-modify, modify_congr}
use blitzwing.Registry.Range.{Range}
use blitzwing.Registry.Host.{
  HostRecord, SwarmRegistry, Env, mother_id, restore_mother, set_ens_name, set_bootstrap_peers,
  persist, name_host,
}
use blitzwing.Registry.Sound.{IsSound}
use blitzwing.Registry.Sound.Stays.{Same, modify-IsSound}
use blitzwing.Registry.Sound.Beats.{hosts-persist, total-persist}
use blitzwing.Registry.Reclaim.Kept.Depart.{NonePending}
use blitzwing.Api.Kept.{name_host-Same}

-- The mother as it was, at the address of the new settings.
abbrev pub at_url : Text → HostRecord → HostRecord
at_url url h = record h { shard_manager_url = rstrip_slash url }

at_url-Same : (url : Text) (h : HostRecord) → Same (at_url url h) h
at_url-Same url h = record {
  host_id = refl;
  role = refl;
  blocks = refl;
  status = refl;
  pending_range = refl;
  donor = refl;
  shrink = refl;
}

-- In a sound registry the restored mother differs only in its address.
pub restored :
    (t : ℤ) (url : Text) (d : Dict HostRecord)
    → IsSound t d
    → modify mother_id (restore_mother url) d ≡ modify mother_id (at_url url) d
unfolding rstrip_slash
restored t url d s =
    let (m, is_m) = s.has_mother in
    modify_congr mother_id (restore_mother url) (at_url url) m d is_m.found
      (ground (arith, is_m.up, is_m.is_role))

pub restored-IsSound :
    (t : ℤ) (url : Text) (d : Dict HostRecord)
    → IsSound t d
    → IsSound t (modify mother_id (restore_mother url) d)
restored-IsSound t url d s =
    rw (restored t url d s)
      (modify-IsSound t mother_id (at_url url) d (λ h. refl) (λ h live. at_url-Same url h) s)

-- An update that keeps every status leaves nobody pending.
pub quiet-modify :
    (i : Text) (f : HostRecord → HostRecord) (d : Dict HostRecord)
    → ((h : HostRecord) → (f h).status ≡ h.status)
    → NonePending d
    → NonePending (modify i f d)
quiet-modify i f d same quiet j x e w = elim (Option-cases (lookup j d)) [
  | inl unknown ↦ absurd (ground (arith, lookup-modify i j f d))
  | inr (y, found) ↦ elim (Bool-cases (text_eq j i)) [
    | inl hit ↦ quiet j y found (ground (arith, lookup-modify i j f d, same y))
    | inr miss ↦ quiet j y found (ground (arith, lookup-modify i j f d))
  ]
]

-- A sound registry with no pending host, in which the mother has the given blocks.
pub record IsKept (t : ℤ) (held : Range) (r : SwarmRegistry) : Type 0 where
  pub sound : IsSound t r.hosts
  pub quiet : NonePending r.hosts
  pub total : r.total_layers ≡ t
  pub blocks : (m : HostRecord) → lookup mother_id r.hosts ≡ some m → m.block_indices ≡ held

pub modify-IsKept :
    (t : ℤ) (held : Range) (i : Text) (f : HostRecord → HostRecord) (r : SwarmRegistry)
    → ((h : HostRecord) → Same (f h) h)
    → IsKept t held r
    → IsKept t held (record r { hosts = modify i f r.hosts })
modify-IsKept t held i f r same kept = record {
  sound = modify-IsSound t i f r.hosts (λ h. (same h).host_id) (λ h live. same h) kept.sound;
  quiet = quiet-modify i f r.hosts (λ h. (same h).status) kept.quiet;
  total = kept.total;
  blocks = λ m e.
      let (m0, is_m) = kept.sound.has_mother in
      ground (
        arith,
        lookup-modify i mother_id f r.hosts,
        is_m.found,
        (same m0).blocks,
        kept.blocks m0 is_m.found,
      );
}

persist-IsKept :
    (t : ℤ) (held : Range) (env : Env) (r : SwarmRegistry)
    → IsKept t held r
    → IsKept t held (persist env r)
persist-IsKept t held env r kept = record {
  sound = rw (hosts-persist env r) kept.sound;
  quiet = rw (hosts-persist env r) kept.quiet;
  total = total-persist env r ∙ kept.total;
  blocks = rw (hosts-persist env r) kept.blocks;
}

pub set_ens_name-IsKept :
    (t : ℤ) (held : Range) (env : Env) (i name : Text) (r : SwarmRegistry)
    → IsKept t held r
    → IsKept t held (set_ens_name env i name r).1
unfolding set_ens_name
set_ens_name-IsKept t held env i name r kept = elim (Option-cases (lookup i r.hosts)) [
  | inl unknown ↦ rw (set_ens_name, unknown) kept
  | inr (h, found) ↦
      rw (set_ens_name, found)
        (persist-IsKept t held env _
          (modify-IsKept t held i (name_host name) r (name_host-Same name) kept))
]

pub boots-IsKept :
    (t : ℤ) (held : Range) (peers : List Text) (r : SwarmRegistry)
    → IsKept t held r
    → IsKept t held (set_bootstrap_peers peers r)
unfolding set_bootstrap_peers
boots-IsKept t held peers r kept = record {
  sound = kept.sound;
  quiet = kept.quiet;
  total = kept.total;
  blocks = kept.blocks;
}
