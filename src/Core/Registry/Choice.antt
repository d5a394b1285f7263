-- ===== src/Core/Registry/Choice.antt =====
-- The choice of a backend, and what becomes of a failure to open.
use Prim.Native.String.{String}
use text.Mathlib.TextEquality.{eq_iff}
use ayafileio.Base.{
  ℕ, ◌≡◌, refl, ◌⊎◌, inl, inr, ◌↔◌, ◌≢◌, true, false, List, [], ◌∷◌, some, arith, All, Bool-cases,
}
use ayafileio.Core.Result.{Result, ok, throws, Exception}
use ayafileio.Core.Config.{BackendKind, auto, iocp, io_uring, dispatch_io, thread_pool}
use ayafileio.Core.Registry.{
  BackendRegistry, kind_eq, usable, first_usable, effective_backend, create, open_backend,
  backend_name, parse_backend_name,
}

pub kind_eq-eq : (a b : BackendKind) → kind_eq a b ≡ true → a ≡ b
kind_eq-eq a b h = ground arith

pub kind_eq_refl : (a : BackendKind) → kind_eq a a ≡ true
kind_eq_refl a = ground arith

Result-cases :
    {A : Type 0} (x : Result A) → ((a : A) × (x ≡ ok a)) ⊎ ((e : Exception) × (x ≡ throws e))
Result-cases (ok a) = inl (a, refl)
Result-cases (throws e) = inr (e, refl)

pub name_of : (kind : BackendKind) → parse_backend_name (backend_name kind) ≡ some kind
unfolding parse_backend_name backend_name
name_of auto = refl
name_of iocp = refl
name_of io_uring = refl
name_of dispatch_io = refl
name_of thread_pool = refl

module _ {B : Type 0} (r : BackendRegistry B) where
  -- None of the kinds can be used.
  abbrev pub NoneUsable : List BackendKind → Type 0
  NoneUsable = All (λ kind. usable r kind ≡ false)

  first_usable_lem :
      (order : List BackendKind)
      → (usable r (first_usable r order) ≡ true)
        ⊎ ((first_usable r order ≡ thread_pool) × NoneUsable order)
  first_usable_lem [] = inr (refl, tt)
  first_usable_lem (kind ∷ rest) = elim (Bool-cases (usable r kind)) [
    | inl e ↦ rw e (inl e)
    | inr e ↦ rw e (elim (first_usable_lem rest) [ inl h ↦ inl h | inr h ↦ inr (h.0, (refl, h.1)) ])
  ]

  -- The backend in force is the configured one where that is registered and available; otherwise
  -- it is registered and available too, or it is the thread pool and no kind of the automatic order
  -- can be used.
  pub effective_backend_lem :
      (configured : BackendKind)
      → ((configured ≢ auto)
          × (usable r configured ≡ true)
          × (effective_backend r configured ≡ configured))
        ⊎ (((configured ≡ auto) ⊎ (usable r configured ≡ false))
            × ((usable r (effective_backend r configured) ≡ true)
                ⊎ ((effective_backend r configured ≡ thread_pool) × NoneUsable r.auto_order)))
  unfolding effective_backend
  effective_backend_lem auto = inr (inl refl, first_usable_lem r.auto_order)
  effective_backend_lem iocp = ground (arith, first_usable_lem r.auto_order)
  effective_backend_lem io_uring = ground (arith, first_usable_lem r.auto_order)
  effective_backend_lem dispatch_io = ground (arith, first_usable_lem r.auto_order)
  effective_backend_lem thread_pool = ground (arith, first_usable_lem r.auto_order)

  -- A file opens wherever the thread pool can open it: if that is registered and its factory
  -- succeeds, the registry returns a backend for every configured kind, that of the kind in force
  -- where its factory succeeds, and the thread pool's where it throws.
  pub open_backend_lem :
      (configured : BackendKind) (path : String) (mode : List ℕ) (b : B)
      → create r thread_pool path mode ≡ ok b
      → let kind = effective_backend r configured in
        ((c : B) × (create r kind path mode ≡ ok c) × (open_backend r configured path mode ≡ ok c))
        ⊎ ((e : Exception) × (create r kind path mode ≡ throws e)
            × (open_backend r configured path mode ≡ ok b))
  unfolding open_backend
  open_backend_lem configured path mode b h =
      elim (Result-cases (create r (effective_backend r configured) path mode)) [
        | inl (c, e) ↦ inl (c, e, rw (e, open_backend))
        | inr (x, e) ↦
            inr
              (x, e, ground (arith, e, h, kind_eq-eq (effective_backend r configured) thread_pool))
      ]

-- Names and kinds correspond: a name is read as a kind exactly when it is that kind's name.
pub parse_backend_name-backend_name :
    (name : String) (kind : BackendKind)
    → (parse_backend_name name ≡ some kind) ↔ (name ≡ backend_name kind)
unfolding parse_backend_name backend_name
parse_backend_name-backend_name name kind = (
  λ h. ground (
    arith,
    eq_iff name "auto",
    eq_iff name "iocp",
    eq_iff name "io_uring",
    eq_iff name "dispatch_io",
    eq_iff name "thread_pool",
  ),
  λ h. rw h (name_of kind),
)
