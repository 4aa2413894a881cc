-- ===== src/Agent/Wgdev/Routes/Synced.antt =====
-- The routes that SyncRoutes of internal/agent/wgdev leaves in the kernel.
use home_kai.Base.{
  any, Text, text_eq, text_eq_iff, text_eq_refl, elem, Bool, true, false, not, ◌&&◌, ◌||◌, ◌≡◌,
  refl, ◌∙◌, List, [], ◌∷◌, arith, if◌then◌else◌, Bool-cases, ◌⊎◌, inl, inr,
}
use home_kai.Agent.Wgdev.Routes.{
  Step, done, skipped, failed, RouteOps, Progress, untrack, delete_stale, add_missing, sync_wanted,
}

abbrev pub is_done : Step → Bool
is_done done = true
is_done _ = false

Step-cases : (s : Step) → (s ≡ done) ⊎ ((s ≡ skipped) ⊎ (s ≡ failed))
Step-cases done = inl refl
Step-cases skipped = inr (inl refl)
Step-cases failed = inr (inr refl)

-- `owns k t`: is there a route of the device to `t`? The laws are for the texts that are read.
pub record Lawful (ops : RouteOps) : Type 0 where
  pub owns : ops.Kernel → Text → Bool
  pub reads : Text → Bool
  pub deletes :
      (s t : Text) (k : ops.Kernel)
      → reads s ≡ true
      → owns (ops.del s k).1 t ≡ (if (ops.del s k).0 && text_eq s t then false else owns k t)
  pub adds :
      (s t : Text) (k : ops.Kernel)
      → reads s ≡ true
      → owns (ops.add s k).1 t ≡ (if is_done (ops.add s k).0 && text_eq s t then true else owns k t)

elem-untrack :
    (s t : Text) (xs : List Text) → elem t (untrack s xs) ≡ (not (text_eq s t) && elem t xs)
elem-untrack s t [] = ground arith
elem-untrack s t (x ∷ xs) =
    ground (arith, text_eq_iff s t, text_eq_iff s x, text_eq_iff t x, elem-untrack s t xs)

pub none_of :
    (p : Text → Bool) (t : Text) (xs : List Text)
    → any p xs ≡ false
    → elem t xs ≡ true
    → p t ≡ false
none_of p t [] h m = cc
none_of p t (x ∷ xs) h m = ground (arith, text_eq_iff t x, none_of p t xs)

-- `base` are the routes that the device got when it was brought up.
module _ {ops : RouteOps} (laws : Lawful ops) (base : Text → Bool) where
  open laws use {owns, reads, deletes, adds}

  -- A text that is read, of a route that is not one of the base.
  abbrev pub is_extra : Text → Bool
  is_extra t = reads t && not (base t)

  -- The routes of the device in the kernel are those of its field and of the base.
  pub record InStep (routes : List Text) (k : ops.Kernel) : Type 0 where
    pub known : (t : Text) → owns k t ≡ (elem t routes || base t)
    pub extra : (t : Text) → elem t routes ≡ true → is_extra t ≡ true

  InStep-untrack :
      (s : Text) (routes : List Text) (k : ops.Kernel)
      → is_extra s ≡ true
      → (ops.del s k).0 ≡ true
      → InStep routes k
      → InStep (untrack s routes) (ops.del s k).1
  InStep-untrack s routes k e h i = record {
    known = λ t. ground (arith, deletes s t k, elem-untrack s t routes, i.known t, text_eq_iff s t);
    extra = λ t m. ground (arith, elem-untrack s t routes, i.extra t);
  }

  InStep-refused :
      (s : Text) (routes : List Text) (k : ops.Kernel)
      → is_extra s ≡ true
      → (ops.del s k).0 ≡ false
      → InStep routes k
      → InStep routes (ops.del s k).1
  InStep-refused s routes k e h i = record {
    known = λ t. ground (arith, deletes s t k, i.known t);
    extra = i.extra;
  }

  abbrev Ended : Progress ops.Kernel → Type 0
  Ended p = InStep p.routes p.kernel

  delete_stale-InStep :
      (want ss routes : List Text) (k : ops.Kernel)
      → ((t : Text) → elem t ss ≡ true → is_extra t ≡ true)
      → InStep routes k
      → Ended (delete_stale ops want ss routes k)
  unfolding delete_stale
  delete_stale-InStep want [] routes k e i = i
  delete_stale-InStep want (s ∷ ss) routes k e i =
      let es = e s (ground (arith, text_eq_refl s)) in
      let later : (t : Text) → elem t ss ≡ true → is_extra t ≡ true =
        λ t m. e t (ground (arith, m)) in
      elim (Bool-cases (elem s want)) [
        | inl w ↦ rw (w, delete_stale) (delete_stale-InStep want ss routes k later i)
        | inr w ↦ elim (Bool-cases (ops.del s k).0) [
          | inl d ↦
              rw (w, d, delete_stale)
                (delete_stale-InStep want ss (untrack s routes) (ops.del s k).1 later
                  (InStep-untrack s routes k es d i))
          | inr d ↦ rw (w, d, delete_stale) (InStep-refused s routes k es d i)
        ]
      ]

  delete_stale-elem :
      (want ss routes : List Text) (k : ops.Kernel) (t : Text)
      → (delete_stale ops want ss routes k).finished ≡ true
      → elem t (delete_stale ops want ss routes k).routes
        ≡ (elem t routes && (elem t want || not (elem t ss)))
  unfolding delete_stale
  delete_stale-elem want [] routes k t f = ground arith
  delete_stale-elem want (s ∷ ss) routes k t f = ground (
    arith,
    text_eq_iff t s,
    text_eq_iff s t,
    elem-untrack s t routes,
    delete_stale-elem want ss routes k t,
    delete_stale-elem want ss (untrack s routes) (ops.del s k).1 t,
  )

  InStep-done :
      (s : Text) (routes : List Text) (k : ops.Kernel)
      → is_extra s ≡ true
      → (ops.add s k).0 ≡ done
      → InStep routes k
      → InStep (s ∷ routes) (ops.add s k).1
  InStep-done s routes k e h i = record {
    known = λ t. ground (arith, h, adds s t k, i.known t, text_eq_iff s t, text_eq_iff t s);
    extra = λ t m. ground (arith, m, i.extra t, text_eq_iff t s);
  }

  InStep-undone :
      (s : Text) (routes : List Text) (k : ops.Kernel)
      → is_extra s ≡ true
      → is_done (ops.add s k).0 ≡ false
      → InStep routes k
      → InStep routes (ops.add s k).1
  InStep-undone s routes k e h i = record {
    known = λ t. ground (arith, h, adds s t k, i.known t);
    extra = i.extra;
  }

  add_missing-InStep :
      (ss routes conflicts : List Text) (k : ops.Kernel)
      → ((t : Text) → elem t ss ≡ true → is_extra t ≡ true)
      → InStep routes k
      → Ended (add_missing ops ss routes conflicts k)
  unfolding add_missing
  add_missing-InStep [] routes conflicts k e i = i
  add_missing-InStep (s ∷ ss) routes conflicts k e i =
      let es = e s (ground (arith, text_eq_refl s)) in
      let later : (t : Text) → elem t ss ≡ true → is_extra t ≡ true =
        λ t m. e t (ground (arith, m)) in
      elim (Bool-cases (elem s routes)) [
        | inl w ↦ rw (w, add_missing) (add_missing-InStep ss routes conflicts k later i)
        | inr w ↦ elim (Step-cases (ops.add s k).0) [
          | inl d ↦
              rw (w, d, add_missing)
                (add_missing-InStep ss (s ∷ routes) conflicts (ops.add s k).1 later
                  (InStep-done s routes k es d i))
          | inr (inl d) ↦
              rw (w, d, add_missing)
                (add_missing-InStep ss routes (s ∷ conflicts) (ops.add s k).1 later
                  (InStep-undone s routes k es (rw d) i))
          | inr (inr d) ↦ rw (w, d, add_missing) (InStep-undone s routes k es (rw d) i)
        ]
      ]

  add_missing-elem :
      (ss routes conflicts : List Text) (k : ops.Kernel) (t : Text)
      → (add_missing ops ss routes conflicts k).finished ≡ true
      → (elem t (add_missing ops ss routes conflicts k).routes
          || elem t (add_missing ops ss routes conflicts k).conflicts)
        ≡ (elem t ss || elem t routes || elem t conflicts)
  unfolding add_missing
  add_missing-elem [] routes conflicts k t f = ground arith
  add_missing-elem (s ∷ ss) routes conflicts k t f = ground (
    arith,
    text_eq_iff t s,
    add_missing-elem ss routes conflicts k t,
    add_missing-elem ss (s ∷ routes) conflicts (ops.add s k).1 t,
    add_missing-elem ss routes (s ∷ conflicts) (ops.add s k).1 t,
  )

  -- The routes in the kernel are those of the field and of the base, and where no call failed each
  -- wanted one, and no other, is in the field or was skipped.
  pub record IsSynced (want : List Text) (p : Progress ops.Kernel) : Type 0 where
    pub in_step : InStep p.routes p.kernel
    pub exact :
        p.finished ≡ true → (t : Text) → (elem t p.routes || elem t p.conflicts) ≡ elem t want

  pub sync_wanted-IsSynced :
      (order : List Text → List Text) (want routes : List Text) (k : ops.Kernel)
      → ((xs : List Text) (t : Text) → elem t (order xs) ≡ elem t xs)
      → ((t : Text) → elem t want ≡ true → is_extra t ≡ true)
      → InStep routes k
      → IsSynced want (sync_wanted ops order want routes k)
  unfolding sync_wanted
  sync_wanted-IsSynced order want routes k o e i =
      let p = delete_stale ops want (order routes) routes k in
      let first : InStep p.routes p.kernel =
        delete_stale-InStep want (order routes) routes k
          (λ t m. i.extra t (ground (arith, m, o routes t))) i in
      elim (Bool-cases p.finished) [
        | inl f ↦
            rw (f, sync_wanted)
              (record {
                in_step =
                    add_missing-InStep (order want) p.routes [] p.kernel
                      (λ t m. e t (ground (arith, m, o want t))) first;
                exact = λ g t. ground (
                  arith,
                  g,
                  add_missing-elem (order want) p.routes [] p.kernel t,
                  delete_stale-elem want (order routes) routes k t f,
                  o want t,
                  o routes t,
                );
              })
        | inr f ↦
            rw (f, sync_wanted) (record { in_step = first; exact = λ g t. ground (arith, f, g) })
      ]

-- What every call for a text that is read keeps, the loops keep.
module _ {ℓ} {A : Type ℓ} (ops : RouteOps) (reads : Text → Bool) (f : ops.Kernel → A)
    (del_keeps : (s : Text) (k : ops.Kernel) → reads s ≡ true → f (ops.del s k).1 ≡ f k)
    (add_keeps : (s : Text) (k : ops.Kernel) → reads s ≡ true → f (ops.add s k).1 ≡ f k) where
  delete_stale-keeps :
      (want ss routes : List Text) (k : ops.Kernel)
      → ((t : Text) → elem t ss ≡ true → reads t ≡ true)
      → f (delete_stale ops want ss routes k).kernel ≡ f k
  unfolding delete_stale
  delete_stale-keeps want [] routes k e = refl
  delete_stale-keeps want (s ∷ ss) routes k e =
      let es = e s (ground (arith, text_eq_refl s)) in
      let later : (t : Text) → elem t ss ≡ true → reads t ≡ true = λ t m. e t (ground (arith, m)) in
      elim (Bool-cases (elem s want)) [
        | inl w ↦ rw (w, delete_stale) (delete_stale-keeps want ss routes k later)
        | inr w ↦ elim (Bool-cases (ops.del s k).0) [
          | inl d ↦
              rw (w, d, delete_stale)
                (delete_stale-keeps want ss (untrack s routes) (ops.del s k).1 later
                  ∙ del_keeps s k es)
          | inr d ↦ rw (w, d, delete_stale) (del_keeps s k es)
        ]
      ]

  add_missing-keeps :
      (ss routes conflicts : List Text) (k : ops.Kernel)
      → ((t : Text) → elem t ss ≡ true → reads t ≡ true)
      → f (add_missing ops ss routes conflicts k).kernel ≡ f k
  unfolding add_missing
  add_missing-keeps [] routes conflicts k e = refl
  add_missing-keeps (s ∷ ss) routes conflicts k e =
      let es = e s (ground (arith, text_eq_refl s)) in
      let later : (t : Text) → elem t ss ≡ true → reads t ≡ true = λ t m. e t (ground (arith, m)) in
      elim (Bool-cases (elem s routes)) [
        | inl w ↦ rw (w, add_missing) (add_missing-keeps ss routes conflicts k later)
        | inr w ↦ elim (Step-cases (ops.add s k).0) [
          | inl d ↦
              rw (w, d, add_missing)
                (add_missing-keeps ss (s ∷ routes) conflicts (ops.add s k).1 later
                  ∙ add_keeps s k es)
          | inr (inl d) ↦
              rw (w, d, add_missing)
                (add_missing-keeps ss routes (s ∷ conflicts) (ops.add s k).1 later
                  ∙ add_keeps s k es)
          | inr (inr d) ↦ rw (w, d, add_missing) (add_keeps s k es)
        ]
      ]

  pub sync_wanted-keeps :
      (order : List Text → List Text) (want routes : List Text) (k : ops.Kernel)
      → ((xs : List Text) (t : Text) → elem t (order xs) ≡ elem t xs)
      → ((t : Text) → elem t want ≡ true → reads t ≡ true)
      → ((t : Text) → elem t routes ≡ true → reads t ≡ true)
      → f (sync_wanted ops order want routes k).kernel ≡ f k
  unfolding sync_wanted
  sync_wanted-keeps order want routes k o w r =
      let p = delete_stale ops want (order routes) routes k in
      let first : f p.kernel ≡ f k =
        delete_stale-keeps want (order routes) routes k
          (λ t m. r t (ground (arith, m, o routes t))) in
      elim (Bool-cases p.finished) [
        | inl e ↦
            rw (e, sync_wanted)
              (add_missing-keeps (order want) p.routes [] p.kernel
                  (λ t m. w t (ground (arith, m, o want t)))
                ∙ first)
        | inr e ↦ rw (e, sync_wanted) first
      ]
