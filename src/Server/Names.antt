-- ===== src/Server/Names.antt =====
-- Public DNS names: internal/coordinator/dns/dns.go and `ensureDNS` and `BackfillDNS` of
-- internal/coordinator/server.go.
pub mod Backfill
pub mod Timeweb
use home_kai.Base.{
  ℕ, zero, suc, ◌+◌, ◌-◌, Text, codes, Bool, true, false, not, ◌||◌, Option, none, some, List, [],
  ◌∷◌, ◌++◌, ltb, is_empty, if◌then◌else◌,
}
use home_kai.Model.{Node, StaticPeer}
use home_kai.Store.Exec.{StoreErr, Exec, pure, catch, ◌>>=◌, ◌>>◌}
use home_kai.Store.Calls.{nodes, static_peers, set_node_dns_name, set_static_peer_dns_name}
use home_kai.Server.{Handler, Status, bump_netmap}

-- The rest of the world of type S: the random numbers of crypto/rand, which are below the bound that
-- is asked for, and the calls of the provider, which give `true` for no error.
pub record Provider (S : Type 0) : Type 0 where
  pub random : ℕ → S → Option ℕ × S
  pub ensure_a : Text → Text → S → Bool × S
  pub delete_a : Text → S → Bool × S

-- Noop
abbrev pub noop : {S : Type 0} → (ℕ → S → Option ℕ × S) → Provider S
noop random = record {
  random = random;
  ensure_a = λ fqdn ip s. (true, s);
  delete_a = λ fqdn s. (true, s);
}

-- The alphabet is a to z and 0 to 9.
abbrev pub label_letter : ℕ → ℕ
label_letter n = if ltb n 26 then b'a' + n else b'0' + (n - 26)

abbrev with_letter : ℕ → Option Text → Option Text
with_letter n none = none
with_letter n (some label) = some (label_letter n ∷ label)

-- The netmap is raised where a name was stored; a failure is only logged.
unfoldable pub bump_changed : {S : Type 0} → Bool → S → Handler S
bump_changed changed s = if changed then catch (do bump_netmap; pure s) (λ _. pure s) else pure s

module _ {S : Type 0} (provider : Provider S) where
  -- RandomLabel, with the number of letters that are left
  unfoldable pub random_label : ℕ → S → Option Text × S
  random_label zero s = (some [], s)
  random_label (suc left) s =
      let (drawn, s') = provider.random 36 s in
      let (rest, s'') = random_label left s' in
      elim drawn [ none ↦ (none, s') | some n ↦ (with_letter n rest, s'') ]

  unfoldable pub ensure_dns : Text → Text → S → Text × S
  ensure_dns domain ip s =
      if is_empty domain
      then ([], s)
      else let (drawn, s') = random_label 16 s in
        elim drawn [
          | none ↦ ([], s')
          | some label ↦
              let fqdn = label ++ (b'.' ∷ domain) in
              let (done, s'') = provider.ensure_a fqdn ip s' in (if done then fqdn else [], s'')
        ]

  -- What `BackfillDNS` does with one device, and with a list of them; beside the rest of the world it
  -- carries whether a name was stored.
  module _ {A : Type 0} (domain : Text) (name ip : A → Text)
      (set_name : A → Text → Exec StoreErr (Unit {0})) where
    unfoldable pub backfill_one : A → S × Bool → Handler (S × Bool)
    backfill_one a (s, changed) =
        if not (is_empty (name a))
        then pure (s, changed)
        else let (fqdn, s') = ensure_dns domain (ip a) s in
          if is_empty fqdn
          then pure (s', changed)
          else catch (do set_name a fqdn; pure (s', true)) (λ _. pure (s', changed))

    unfoldable pub backfill_each : List A → S × Bool → Handler (S × Bool)
    backfill_each [] state = pure state
    backfill_each (a ∷ rest) state = do state' ← backfill_one a state; backfill_each rest state'

    -- a list that cannot be read is skipped
    unfoldable pub backfill_table : Exec StoreErr (List A) → S × Bool → Handler (S × Bool)
    backfill_table read state = do todo ← catch read (λ _. pure []); backfill_each todo state

  unfoldable pub backfill_dns : Text → S → Handler S
  backfill_dns domain s = if is_empty domain then pure s else do
    (s', changed) ←
        backfill_table domain (λ (n : Node). n.dns_name) (λ n. n.overlay_ip)
          (λ n fqdn. set_node_dns_name n.id fqdn) nodes (s, false)
    (s'', changed') ←
        backfill_table domain (λ (p : StaticPeer). p.dns_name) (λ p. p.overlay_ip)
          (λ p fqdn. set_static_peer_dns_name p.id fqdn) static_peers (s', changed)
    bump_changed changed' s''
