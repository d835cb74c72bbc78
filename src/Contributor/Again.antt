-- ===== src/Contributor/Again.antt =====
-- The second generation of a client for the same manifest: `generate` of shard_manager/inference.py.
use blitzwing.Base.{◌≡◌, ap, false, some, List}
use blitzwing.Base.Int.{ℤ}
use blitzwing.Base.Exec.{Exec, ok, err, lift, ◌>>=◌, ◌>>◌}
use blitzwing.Contributor.{
  ContributorInference, LoadEnv, ManifestHost, any_loopback, peers_from_manifest, ensure_loaded,
}
use blitzwing.Contributor.Loaded.{IsConnected}
use blitzwing.Contributor.Peers.{ensure_loaded_again}
use blitzwing.Contributor.Generate.{Message, GenerateEnv, reroute, run_model, generate}

>>=-ok :
    {S A B : Type 0} (m : Exec S A) (f : A → Exec S B) (s : S) (a : A) (s' : S)
    → m s ≡ (ok a, s')
    → (m >>= f) s ≡ f a s'
>>=-ok m f s a s' e = ap (λ x. elim x.0 [ ok b ↦ f b x.1 | err x' ↦ (err x', x.1) ]) e

-- After a load that passes, a generation with the same manifest changes no peer, loads nothing and
-- makes no poll of its load: all that is left of it is the look for missing blocks, with its own wait
-- if some are missing, which may raise, and the run of the model; provided that the manifest names no
-- loopback address for another host.
pub generate_again :
    (env : LoadEnv) (later : GenerateEnv) (messages : List Message) (max_tokens : ℤ)
    (hosts : List ManifestHost) (c : ContributorInference)
    → IsConnected c
    → any_loopback (peers_from_manifest c hosts) ≡ false
    → (ensure_loaded env (some hosts) c).0 ≡ ok tt
    → generate later messages max_tokens (some hosts) (ensure_loaded env (some hosts) c).1
      ≡ (reroute later >> lift (run_model later messages max_tokens))
          (ensure_loaded env (some hosts) c).1
unfolding generate
generate_again env later messages max_tokens hosts c s remote passed =
    let after = (ensure_loaded env (some hosts) c).1 in
    >>=-ok (ensure_loaded later.load (some hosts))
      (λ u. reroute later >> lift (run_model later messages max_tokens)) after tt after
      (ensure_loaded_again env later.load hosts c s remote passed)
