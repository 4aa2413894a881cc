-- ===== src/Agent/Publish/Running.antt =====
-- The forwarders that run after syncPublishes of internal/agent/publish.go.
use home_kai.Base.{
  ℕ, Text, text_eq, text_eq_iff, text_eq_comm, Bool, true, false, not, ◌&&◌, ◌||◌, Option, none,
  some, ◌≡◌, refl, sym, ap, List, [], ◌∷◌, any, keep, ◌==◌, arith, if◌then◌else◌,
}
use home_kai.Model.{Publish}
use home_kai.Agent.Publish.{
  Targets, put_target, target_at, wanted, stays, has_port, start_missing, sync_publishes,
}

-- The target of the last publish of a port.
abbrev pub last_target : ℕ → List Publish → Option Text
last_target port [] = none
last_target port (p ∷ pubs) = elim (last_target port pubs) [
  | some t ↦ some t
  | none ↦ if p.listen_port == port then some p.target else none
]

abbrev pub is_target : Option Text → Text → Bool
is_target none t = false
is_target (some u) t = text_eq u t

-- Is the port forwarded to the target?
abbrev pub runs : ℕ → Text → Targets → Bool
runs port target running = any (λ (f : ℕ × Text). f.0 == port && text_eq f.1 target) running

target_at-put_target :
    (port p : ℕ) (t : Text) (m : Targets)
    → target_at port (put_target p t m) ≡ (if p == port then some t else target_at port m)
unfolding put_target target_at
target_at-put_target port p t [] = refl
target_at-put_target port p t ((q, u) ∷ m) = ground (arith, target_at-put_target port p t m)

abbrev or_else : Option Text → Option Text → Option Text
or_else none o = o
or_else (some t) o = some t

target_at-wanted :
    (port : ℕ) (m : Targets) (pubs : List Publish)
    → target_at port (wanted m pubs) ≡ or_else (last_target port pubs) (target_at port m)
unfolding wanted
target_at-wanted port m [] = refl
target_at-wanted port m (p ∷ pubs) = ground (
  arith,
  target_at-wanted port (put_target p.listen_port p.target m) pubs,
  target_at-put_target port p.listen_port p.target m,
)

one_target : (o : Option Text) (s t : Text) → is_target o t ≡ true → is_target o s ≡ text_eq s t
one_target none s t k = ground (arith, k)
one_target (some u) s t k = rw (sym ((text_eq_iff u t).0 k)) (text_eq_comm u s)

module _ (listen : ℕ → Bool) (port : ℕ) where
  -- No forwarder of the port is missing that the list asks for and that can listen.
  runs-start_missing :
      (target : Text) (want running : Targets)
      → runs port target (start_missing listen want running) ≡ (
          runs port target running
          || (not (has_port port running)
              && (listen port && is_target (target_at port want) target)))
  unfolding start_missing target_at
  runs-start_missing target [] running = ground arith
  runs-start_missing target ((p, t) ∷ want) running = ground (
    arith,
    runs-start_missing target want running,
    runs-start_missing target want ((p, t) ∷ running),
  )

  -- Of the forwarders of the port, those with the wanted target are kept.
  stays_eq :
      (want : Targets) (f : ℕ × Text)
      → (f.0 == port) ≡ true
      → stays want f ≡ is_target (target_at port want) f.1
  stays_eq want f h =
      let same : f.0 ≡ port = ground (arith, h) in ground (arith, ap (λ q. target_at q want) same)

  runs-keep :
      (target : Text) (want running : Targets)
      → runs port target (keep (stays want) running)
        ≡ (is_target (target_at port want) target && runs port target running)
  runs-keep target want [] = ground arith
  runs-keep target want (f ∷ running) =
      ground (arith, runs-keep target want running, stays_eq want f, text_eq_iff f.1 target)

  has_port-keep :
      (target : Text) (want running : Targets)
      → is_target (target_at port want) target ≡ true
      → has_port port (keep (stays want) running) ≡ runs port target running
  has_port-keep target want [] h = refl
  has_port-keep target want (f ∷ running) h = ground (
    arith,
    h,
    has_port-keep target want running h,
    stays_eq want f,
    one_target (target_at port want) f.1 target,
  )

  -- After syncPublishes a port is forwarded to a target exactly when the last publish of the port
  -- has the target, and the port was forwarded to it before or can be listened on.
  pub sync_publishes_exact :
      (target : Text) (pubs : List Publish) (running : Targets)
      → runs port target (sync_publishes listen pubs running)
        ≡ (is_target (last_target port pubs) target && (runs port target running || listen port))
  unfolding sync_publishes target_at
  sync_publishes_exact target pubs running =
      let want = wanted [] pubs in
      ground (
        arith,
        runs-start_missing target want (keep (stays want) running),
        runs-keep target want running,
        has_port-keep target want running,
        target_at-wanted port [] pubs,
      )
