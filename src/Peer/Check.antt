-- ===== src/Peer/Check.antt =====
-- What the reachability checks let through.
use blitzwing.Base.{
  ◌≡◌, ap, Bool, true, false, ◌&&◌, ◌⊎◌, inl, inr, Option, none, some, List, arith, Bool-cases,
}
use blitzwing.Base.Text.{Text, is_empty, truthy, or_empty, member}
use blitzwing.Base.Exec.{Result, ok, err}
use blitzwing.Registry.Range.{Range}
use blitzwing.Peer.{
  Reachability, is_public_http_url, verify_contributor_http, verify_peer_tcp, own_peer, passed,
  contributor_precheck_passed,
}

-- The peer address is not one of the mother's own, and a connection to its endpoint opens.
pub record ByTcp (net : Reachability) (peer : Option Text) (bootstrap : List Text) : Type 0 where
  pub not_own : member (or_empty peer) bootstrap ≡ false
  pub verified : verify_peer_tcp net (or_empty peer) ≡ ok true

passed_ok : (r : Result Bool) → passed r ≡ true → r ≡ ok true
passed_ok (err e) h = cc
passed_ok (ok b) h = ap ok h

http_private :
    (net : Reachability) (url : Text) (blocks : Range)
    → is_public_http_url url ≡ false
    → verify_contributor_http net url blocks ≡ ok false
unfolding verify_contributor_http
http_private net url blocks private = elim (Bool-cases (is_empty url)) [
  | inl empty ↦ rw empty
  | inr given ↦ rw (given, private)
]

http_public :
    (net : Reachability) (url : Text) (blocks : Range)
    → verify_contributor_http net url blocks ≡ ok true
    → is_public_http_url url ≡ true
http_public net url blocks h = elim (Bool-cases (is_public_http_url url)) [
  | inl public ↦ public
  | inr private ↦ absurd (cc (h, http_private net url blocks private))
]

own_peer-passed :
    (net : Reachability) (peer : Option Text) (bootstrap : List Text)
    → (truthy (own_peer bootstrap peer)
        && passed (verify_peer_tcp net (or_empty (own_peer bootstrap peer))))
      ≡ true
    → (member (or_empty peer) bootstrap ≡ false)
      × (passed (verify_peer_tcp net (or_empty peer)) ≡ true)
own_peer-passed net none bootstrap h = cc
own_peer-passed net (some p) bootstrap h = (ground arith, ground arith)

-- A contributor that passes the check has a public shard manager that passed its own check, or a
-- peer address that is not one of the mother's own and accepts connections.
pub precheck_passed :
    (net : Reachability) (url : Text) (blocks : Range) (peer : Option Text) (bootstrap : List Text)
    → contributor_precheck_passed net url blocks peer bootstrap ≡ true
    → ((is_public_http_url url ≡ true) × (verify_contributor_http net url blocks ≡ ok true))
      ⊎ ByTcp net peer bootstrap
unfolding contributor_precheck_passed
precheck_passed net url blocks peer bootstrap h =
    elim (Bool-cases (passed (verify_contributor_http net url blocks))) [
      | inl by_http ↦
          let verified = passed_ok (verify_contributor_http net url blocks) by_http in
          inl (http_public net url blocks verified, verified)
      | inr not_http ↦
          let (not_own, by_tcp) = own_peer-passed net peer bootstrap (ground arith) in
          inr (record {
            not_own = not_own;
            verified = passed_ok (verify_peer_tcp net (or_empty peer)) by_tcp;
          })
    ]
