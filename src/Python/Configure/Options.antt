-- ===== src/Python/Configure/Options.antt =====
-- What the checks of `configure` in src/bindings/python/py_config.cpp make of a dict, field by field.
use Prim.Native.String.{String}
use ayafileio.Base.{
  ℕ, ◌≡◌, ◌∙◌, refl, subst, sym, Bool, true, false, List, Option, none, some, ℤ, ◌⊎◌, inl, inr,
  Option-cases, Bool-cases, arith, ltb_ℤ, pos, to_u64, ◌&&◌, not,
}
use ayafileio.Core.Config.{Config, BackendKind}
use ayafileio.Core.Registry.{parse_backend_name}
use ayafileio.Python.Configure.{
  Checked, fine, refused, Casts, Platform, next, lookup, cast_option, cast_size_option, in_range,
  set_size, set_backend, set_named, set_worker, set_timeout, set_depth, set_batch, set_latency,
  set_adaptive, set_pool_max, set_buffer_size, set_sqpoll, read_options,
}

after_next :
    (R : Type 0) (k : Checked) (f : Config → Checked) (d : Config)
    → next k f ≡ fine d
    → ((c : Config) → k ≡ fine c → f c ≡ fine d → R)
    → R
after_next R (fine c) f d h go = go c refl h
after_next R (refused r) f d h go = ground (arith, h)

-- Where threads can be started, none of those that a call wants is missing.
pub started_all : (wanted start : Bool) → start ≡ true → (wanted && not start) ≡ false
started_all true true h = refl
started_all false b h = refl
started_all true false h = ground arith

fine-inj : (c d : Config) → fine c ≡ fine d → c ≡ d
fine-inj c d h = ground arith

module _ {V : Type 0} (casts : Casts V) where
  -- An option that the dict has was cast, and the value is as told; for one that it has not, what is kept.
  abbrev pub Chosen :
      {A : Type 0}
      → (V → Option A)
      → List (Option String × V)
      → String
      → (A → Type 0)
      → Type 0
      → Type 0
  Chosen {A} cast options key Is Kept =
      ((lookup casts key options ≡ none) × Kept)
      ⊎ ((v : V) × (a : A) × (lookup casts key options ≡ some v) × (cast v ≡ some a) × Is a)

  -- A configuration that follows a dict, from the one before: each field by its option.
  pub record Follows (o : List (Option String × V)) (old new : Config) : Type 0 where
    backend :
        Chosen casts.as_text o "backend"
          (λ name. parse_backend_name name ≡ some new.backend)
          (new.backend ≡ old.backend)
    io_worker_count :
        Chosen casts.as_unsigned o "io_worker_count"
          (λ n. new.io_worker_count ≡ n)
          (new.io_worker_count ≡ old.io_worker_count)
    buffer_pool_max :
        Chosen casts.as_int64 o "buffer_pool_max"
          (λ n. new.buffer_pool_max ≡ to_u64 n)
          (new.buffer_pool_max ≡ old.buffer_pool_max)
    buffer_size :
        Chosen casts.as_int64 o "buffer_size"
          (λ n. new.buffer_size ≡ to_u64 n)
          (new.buffer_size ≡ old.buffer_size)
    close_timeout_ms :
        Chosen casts.as_unsigned o "close_timeout_ms"
          (λ n. new.close_timeout_ms ≡ n)
          (new.close_timeout_ms ≡ old.close_timeout_ms)
    io_uring_queue_depth :
        Chosen casts.as_unsigned o "io_uring_queue_depth"
          (λ n. new.io_uring_queue_depth ≡ n)
          (new.io_uring_queue_depth ≡ old.io_uring_queue_depth)
    iocp_batch_size :
        Chosen casts.as_unsigned o "iocp_batch_size"
          (λ n. new.iocp_batch_size ≡ n)
          (new.iocp_batch_size ≡ old.iocp_batch_size)
    io_uring_sqpoll :
        Chosen casts.as_bool o "io_uring_sqpoll"
          (λ b. new.io_uring_sqpoll ≡ b)
          (new.io_uring_sqpoll ≡ old.io_uring_sqpoll)
    adaptive_batch :
        Chosen casts.as_bool o "adaptive_batch"
          (λ b. new.adaptive_batch ≡ b)
          (new.adaptive_batch ≡ old.adaptive_batch)
    adaptive_target_latency_us :
        Chosen casts.as_unsigned o "adaptive_target_latency_us"
          (λ n. new.adaptive_target_latency_us ≡ n)
          (new.adaptive_target_latency_us ≡ old.adaptive_target_latency_us)
    others :
        (new.io_uring_flags ≡ old.io_uring_flags)
        × (new.io_uring_sqpoll_idle_ms ≡ old.io_uring_sqpoll_idle_ms)

  -- One stage writes one field, with the value that its option gives or with the one that was there.
  stage :
      {A F : Type 0} (cast : V → Option A) (o : List (Option String × V)) (key : String)
      (use_value : A → Config → Checked) (get : Config → F) (set : F → Config → Config)
      (Is : A → F → Type 0) (c d : Config)
      → ((x : Config) → set (get x) x ≡ x)
      → ((a : A) (x y : Config) → use_value a x ≡ fine y → (f : F) × (y ≡ set f x) × Is a f)
      → cast_option casts cast o key use_value c ≡ fine d
      → (G : Config → Type 0)
      → ((f : F) → Chosen cast o key (λ a. Is a f) (f ≡ get c) → G (set f c))
      → G d
  unfolding cast_option
  stage cast o key use_value get set Is c d eta good h G go =
      elim (Option-cases (lookup casts key o)) [
        | inl e ↦
            let kept : c ≡ d = fine-inj c d (rw (e, cast_option) at h) in
            subst G (eta c ∙ kept) (go (get c) (inl (e, refl)))
        | inr (v, e) ↦ elim (Option-cases (cast v)) [
          | inl g ↦ absurd (let q = rw (e, cast_option, g) at h in ground (arith, q))
          | inr (a, g) ↦
              let (f, p, is) = good a c d (rw (e, cast_option, g) at h) in
              subst G (sym p) (go f (inr (v, a, e, g, is)))
        ]
      ]

  module _ {B : Type 0} (platform : Platform B) where
    ranged :
        (outside : Bool) (message : String) (x y : Config)
        → in_range casts outside message x ≡ fine y
        → y ≡ x
    ranged true message x y h = ground (arith, h)
    ranged false message x y h = sym (fine-inj x y h)

    sized :
        (key : String) (set : ℕ → Config → Config) (n : ℤ) (x y : Config)
        → set_size casts key set n x ≡ fine y
        → y ≡ set (to_u64 n) x
    sized key set n x y h = elim (Bool-cases (ltb_ℤ (pos 0) n)) [
      | inl e ↦ sym (fine-inj _ _ (rw e at h))
      | inr e ↦ absurd (let q = rw e at h in ground (arith, q))
    ]

    polled :
        (in_force : Config) (b : Bool) (x y : Config)
        → set_sqpoll casts platform in_force b x ≡ fine y
        → y ≡ record x { io_uring_sqpoll = b }
    unfolding set_sqpoll
    polled in_force b x y h = ground (arith, h)

    named :
        (name : String) (k : Option BackendKind) (x y : Config)
        → set_backend casts platform name k x ≡ fine y
        → (f : BackendKind) × (y ≡ record x { backend = f }) × (k ≡ some f)
    named name none x y h = ground (arith, h)
    named name (some kind) x y h = (kind, ranged _ _ _ y h, refl)

    stage_backend :
        (old c d : Config) (o : List (Option String × V))
        → cast_option casts casts.as_text o "backend" (set_named casts platform) c ≡ fine d
        → (G : Config → Type 0)
        → ((f : BackendKind)
            → Chosen casts.as_text o "backend"
                (λ name. parse_backend_name name ≡ some f)
                (f ≡ c.backend)
            → G (record c { backend = f }))
        → G d
    stage_backend old c d o h G go =
        stage casts.as_text o "backend" (set_named casts platform) (λ x. x.backend)
          (λ f x. record x { backend = f }) (λ name f. parse_backend_name name ≡ some f) c d
          (λ x. refl) (λ a x y e. named a (parse_backend_name a) x y e) h G go

    stage_io_worker_count :
        (old c d : Config) (o : List (Option String × V))
        → cast_option casts casts.as_unsigned o "io_worker_count" (set_worker casts platform) c
          ≡ fine d
        → (G : Config → Type 0)
        → ((f : ℕ)
            → Chosen casts.as_unsigned o "io_worker_count" (λ n. f ≡ n) (f ≡ c.io_worker_count)
            → G (record c { io_worker_count = f }))
        → G d
    stage_io_worker_count old c d o h G go =
        stage casts.as_unsigned o "io_worker_count" (set_worker casts platform)
          (λ x. x.io_worker_count) (λ f x. record x { io_worker_count = f }) (λ n f. f ≡ n) c d
          (λ x. refl) (λ a x y e. (a, ranged _ _ _ y e, refl)) h G go

    stage_buffer_pool_max :
        (old c d : Config) (o : List (Option String × V))
        → cast_size_option casts o "buffer_pool_max" (set_pool_max casts platform) c ≡ fine d
        → (G : Config → Type 0)
        → ((f : ℕ)
            → Chosen casts.as_int64 o "buffer_pool_max" (λ n. f ≡ to_u64 n) (f ≡ c.buffer_pool_max)
            → G (record c { buffer_pool_max = f }))
        → G d
    unfolding cast_size_option
    stage_buffer_pool_max old c d o h G go =
        stage casts.as_int64 o "buffer_pool_max"
          (set_size casts "buffer_pool_max" (set_pool_max casts platform)) (λ x. x.buffer_pool_max)
          (λ f x. record x { buffer_pool_max = f }) (λ n f. f ≡ to_u64 n) c d (λ x. refl)
          (λ a x y e.
            (to_u64 a, sized "buffer_pool_max" (set_pool_max casts platform) a x y e, refl))
          h G go

    stage_buffer_size :
        (old c d : Config) (o : List (Option String × V))
        → cast_size_option casts o "buffer_size" (set_buffer_size casts platform) c ≡ fine d
        → (G : Config → Type 0)
        → ((f : ℕ)
            → Chosen casts.as_int64 o "buffer_size" (λ n. f ≡ to_u64 n) (f ≡ c.buffer_size)
            → G (record c { buffer_size = f }))
        → G d
    unfolding cast_size_option
    stage_buffer_size old c d o h G go =
        stage casts.as_int64 o "buffer_size"
          (set_size casts "buffer_size" (set_buffer_size casts platform)) (λ x. x.buffer_size)
          (λ f x. record x { buffer_size = f }) (λ n f. f ≡ to_u64 n) c d (λ x. refl)
          (λ a x y e.
            (to_u64 a, sized "buffer_size" (set_buffer_size casts platform) a x y e, refl))
          h G go

    stage_close_timeout_ms :
        (old c d : Config) (o : List (Option String × V))
        → cast_option casts casts.as_unsigned o "close_timeout_ms" (set_timeout casts platform) c
          ≡ fine d
        → (G : Config → Type 0)
        → ((f : ℕ)
            → Chosen casts.as_unsigned o "close_timeout_ms" (λ n. f ≡ n) (f ≡ c.close_timeout_ms)
            → G (record c { close_timeout_ms = f }))
        → G d
    stage_close_timeout_ms old c d o h G go =
        stage casts.as_unsigned o "close_timeout_ms" (set_timeout casts platform)
          (λ x. x.close_timeout_ms) (λ f x. record x { close_timeout_ms = f }) (λ n f. f ≡ n) c d
          (λ x. refl) (λ a x y e. (a, sym (fine-inj _ y e), refl)) h G go

    stage_io_uring_queue_depth :
        (old c d : Config) (o : List (Option String × V))
        → cast_option casts casts.as_unsigned o "io_uring_queue_depth" (set_depth casts platform) c
          ≡ fine d
        → (G : Config → Type 0)
        → ((f : ℕ)
            → Chosen casts.as_unsigned o "io_uring_queue_depth"
                (λ n. f ≡ n)
                (f ≡ c.io_uring_queue_depth)
            → G (record c { io_uring_queue_depth = f }))
        → G d
    stage_io_uring_queue_depth old c d o h G go =
        stage casts.as_unsigned o "io_uring_queue_depth" (set_depth casts platform)
          (λ x. x.io_uring_queue_depth) (λ f x. record x { io_uring_queue_depth = f })
          (λ n f. f ≡ n) c d (λ x. refl) (λ a x y e. (a, sym (fine-inj _ y e), refl)) h G go

    stage_iocp_batch_size :
        (old c d : Config) (o : List (Option String × V))
        → cast_option casts casts.as_unsigned o "iocp_batch_size" (set_batch casts platform) c
          ≡ fine d
        → (G : Config → Type 0)
        → ((f : ℕ)
            → Chosen casts.as_unsigned o "iocp_batch_size" (λ n. f ≡ n) (f ≡ c.iocp_batch_size)
            → G (record c { iocp_batch_size = f }))
        → G d
    stage_iocp_batch_size old c d o h G go =
        stage casts.as_unsigned o "iocp_batch_size" (set_batch casts platform)
          (λ x. x.iocp_batch_size) (λ f x. record x { iocp_batch_size = f }) (λ n f. f ≡ n) c d
          (λ x. refl) (λ a x y e. (a, ranged _ _ _ y e, refl)) h G go

    stage_io_uring_sqpoll :
        (old c d : Config) (o : List (Option String × V))
        → cast_option casts casts.as_bool o "io_uring_sqpoll" (set_sqpoll casts platform old) c
          ≡ fine d
        → (G : Config → Type 0)
        → ((f : Bool)
            → Chosen casts.as_bool o "io_uring_sqpoll" (λ b. f ≡ b) (f ≡ c.io_uring_sqpoll)
            → G (record c { io_uring_sqpoll = f }))
        → G d
    stage_io_uring_sqpoll old c d o h G go =
        stage casts.as_bool o "io_uring_sqpoll" (set_sqpoll casts platform old)
          (λ x. x.io_uring_sqpoll) (λ f x. record x { io_uring_sqpoll = f }) (λ b f. f ≡ b) c d
          (λ x. refl) (λ a x y e. (a, polled old a x y e, refl)) h G go

    stage_adaptive_batch :
        (old c d : Config) (o : List (Option String × V))
        → cast_option casts casts.as_bool o "adaptive_batch" (set_adaptive casts platform) c
          ≡ fine d
        → (G : Config → Type 0)
        → ((f : Bool)
            → Chosen casts.as_bool o "adaptive_batch" (λ b. f ≡ b) (f ≡ c.adaptive_batch)
            → G (record c { adaptive_batch = f }))
        → G d
    stage_adaptive_batch old c d o h G go =
        stage casts.as_bool o "adaptive_batch" (set_adaptive casts platform) (λ x. x.adaptive_batch)
          (λ f x. record x { adaptive_batch = f }) (λ b f. f ≡ b) c d (λ x. refl)
          (λ a x y e. (a, sym (fine-inj _ y e), refl)) h G go

    stage_adaptive_target_latency_us :
        (old c d : Config) (o : List (Option String × V))
        → cast_option casts casts.as_unsigned o "adaptive_target_latency_us"
            (set_latency casts platform)
            c
          ≡ fine d
        → (G : Config → Type 0)
        → ((f : ℕ)
            → Chosen casts.as_unsigned o "adaptive_target_latency_us"
                (λ n. f ≡ n)
                (f ≡ c.adaptive_target_latency_us)
            → G (record c { adaptive_target_latency_us = f }))
        → G d
    stage_adaptive_target_latency_us old c d o h G go =
        stage casts.as_unsigned o "adaptive_target_latency_us" (set_latency casts platform)
          (λ x. x.adaptive_target_latency_us) (λ f x. record x { adaptive_target_latency_us = f })
          (λ n f. f ≡ n) c d (λ x. refl) (λ a x y e. (a, ranged _ _ _ y e, refl)) h G go

    -- Options that the checks take are in the configuration that they give, each in its field.
    pub read_options-Follows :
        (old new : Config) (o : List (Option String × V))
        → read_options casts platform old o ≡ fine new
        → Follows o old new
    unfolding read_options
    read_options-Follows old new o h =
        let R : Type 0 = Follows o old new in
        after_next R _ _ new h (λ c9 h9 g10. after_next R _ _ c9 h9 (λ c8 h8 g9.
          after_next R _ _ c8 h8 (λ c7 h7 g8. after_next R _ _ c7 h7 (λ c6 h6 g7.
            after_next R _ _ c6 h6 (λ c5 h5 g6. after_next R _ _ c5 h5 (λ c4 h4 g5.
              after_next R _ _ c4 h4 (λ c3 h3 g4. after_next R _ _ c3 h3 (λ c2 h2 g3.
                after_next R _ _ c2 h2 (λ c1 h1 g2.
                  stage_backend old _ c1 o h1
                    (λ c.
                      cast_option casts casts.as_unsigned o "io_worker_count"
                          (set_worker casts platform) c
                        ≡ fine c2
                      → R)
                    (λ x1 b1 k2.
                      stage_io_worker_count old _ c2 o k2
                        (λ c.
                          cast_size_option casts o "buffer_pool_max" (set_pool_max casts platform) c
                            ≡ fine c3
                          → R)
                        (λ x2 b2 k3.
                          stage_buffer_pool_max old _ c3 o k3
                            (λ c.
                              cast_size_option casts o "buffer_size"
                                  (set_buffer_size casts platform) c
                                ≡ fine c4
                              → R)
                            (λ x3 b3 k4.
                              stage_buffer_size old _ c4 o k4
                                (λ c.
                                  cast_option casts casts.as_unsigned o "close_timeout_ms"
                                      (set_timeout casts platform) c
                                    ≡ fine c5
                                  → R)
                                (λ x4 b4 k5.
                                  stage_close_timeout_ms old _ c5 o k5
                                    (λ c.
                                      cast_option casts casts.as_unsigned o "io_uring_queue_depth"
                                          (set_depth casts platform) c
                                        ≡ fine c6
                                      → R)
                                    (λ x5 b5 k6.
                                      stage_io_uring_queue_depth old _ c6 o k6
                                        (λ c.
                                          cast_option casts casts.as_unsigned o "iocp_batch_size"
                                              (set_batch casts platform) c
                                            ≡ fine c7
                                          → R)
                                        (λ x6 b6 k7.
                                          stage_iocp_batch_size old _ c7 o k7
                                            (λ c.
                                              cast_option casts casts.as_bool o "io_uring_sqpoll"
                                                  (set_sqpoll casts platform old) c
                                                ≡ fine c8
                                              → R)
                                            (λ x7 b7 k8.
                                              stage_io_uring_sqpoll old _ c8 o k8
                                                (λ c.
                                                  cast_option casts casts.as_bool o "adaptive_batch"
                                                      (set_adaptive casts platform) c
                                                    ≡ fine c9
                                                  → R)
                                                (λ x8 b8 k9.
                                                  stage_adaptive_batch old _ c9 o k9
                                                    (λ c.
                                                      cast_option casts casts.as_unsigned o
                                                          "adaptive_target_latency_us"
                                                          (set_latency casts platform) c
                                                        ≡ fine new
                                                      → R)
                                                    (λ x9 b9 k10.
                                                      stage_adaptive_target_latency_us old _ new o
                                                        k10 (Follows o old)
                                                        (λ x10 b10. record {
                                                          backend = b1;
                                                          io_worker_count = b2;
                                                          buffer_pool_max = b3;
                                                          buffer_size = b4;
                                                          close_timeout_ms = b5;
                                                          io_uring_queue_depth = b6;
                                                          iocp_batch_size = b7;
                                                          io_uring_sqpoll = b8;
                                                          adaptive_batch = b9;
                                                          adaptive_target_latency_us = b10;
                                                          others = (refl, refl);
                                                        }))
                                                    g10)
                                                g9)
                                            g8)
                                        g7)
                                    g6)
                                g5)
                            g4)
                        g3)
                    g2)))))))))
