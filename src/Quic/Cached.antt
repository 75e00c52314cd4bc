-- ===== src/Quic/Cached.antt =====
-- The cached configuration of `spawn_quic_workers` in rust-server/src/quic_worker.rs: `QUIC_CONFIG`, a
-- `OnceLock`, and callers that get, convert, set and get again, each step of any of them at any time. A
-- configuration is a number; what `try_into` makes of a TLS configuration is any.
use single_binary_static_web.Prelude.{
  ℕ, zero, suc, ◌≡◌, refl, List, [], ◌∷◌, Option, none, some, get_elem?, get_elem?-All, set, All,
}

-- Where a caller stands.
pub data Caller : Type 0 where
  -- before the first `get`; past it, with nothing found; with a configuration of its own; before the
  -- second `get`
  starting converting : Caller
  storing : ℕ → Caller
  reading : Caller
  -- with the error of `try_into`; with the cached configuration; the panic of `unwrap`
  failed : Caller
  ready : ℕ → Caller
  panicked : Caller

-- A step of a caller, with the cell before and after.
pub data CallerStep : Option ℕ → Caller → Option ℕ → Caller → Type 0 where
  found : (c : ℕ) → CallerStep (some c) starting (some c) (ready c)
  missing : CallerStep none starting none converting
  converted : (cell : Option ℕ) (c : ℕ) → CallerStep cell converting cell (storing c)
  refused : (cell : Option ℕ) → CallerStep cell converting cell failed
  -- `set` in an empty cell, and in one that another caller has filled
  stored : (c : ℕ) → CallerStep none (storing c) (some c) reading
  raced : (c d : ℕ) → CallerStep (some d) (storing c) (some d) reading
  got : (c : ℕ) → CallerStep (some c) reading (some c) (ready c)
  unwrapped : CallerStep none reading none panicked

pub record Cache : Type 0 where
  pub cell : Option ℕ
  pub callers : List Caller

abbrev pub new_callers : ℕ → List Caller
new_callers zero = []
new_callers (suc n) = starting ∷ new_callers n

abbrev pub new_cache : ℕ → Cache
new_cache n = record { cell = none; callers = new_callers n }

-- What the cache can be after some steps of its callers.
pub data Reached (n : ℕ) : Cache → Type 0 where
  start : Reached n (new_cache n)
  next :
      (s : Cache) (i : ℕ) (caller caller' : Caller) (cell' : Option ℕ)
      → Reached n s
      → get_elem? s.callers i ≡ some caller
      → CallerStep s.cell caller cell' caller'
      → Reached n (record { cell = cell'; callers = set s.callers i caller' })

-- What a caller may rely on: a configuration that it got is that of the cell, the cell is filled before
-- the second `get`, and no caller has panicked.
abbrev pub Agrees : Option ℕ → Caller → Type 0
Agrees cell (ready c) = cell ≡ some c
Agrees cell reading = (c : ℕ) × (cell ≡ some c)
Agrees cell panicked = ⊥
Agrees cell starting = Unit
Agrees cell converting = Unit
Agrees cell (storing c) = Unit
Agrees cell failed = Unit

-- The cell is written once.
CallerStep-keeps :
    (cell : Option ℕ) (p : Caller) (cell' : Option ℕ) (p' : Caller) {c : ℕ}
    → CallerStep cell p cell' p'
    → cell ≡ some c
    → cell' ≡ some c
CallerStep-keeps _ _ _ _ (found c) h = h
CallerStep-keeps _ _ _ _ missing h = h
CallerStep-keeps _ _ _ _ (converted cell c) h = h
CallerStep-keeps _ _ _ _ (refused cell) h = h
CallerStep-keeps _ _ _ _ (stored c) h = absurd (cc)
CallerStep-keeps _ _ _ _ (raced c d) h = h
CallerStep-keeps _ _ _ _ (got c) h = h
CallerStep-keeps _ _ _ _ unwrapped h = h

Agrees-keeps :
    (cell cell' : Option ℕ)
    → ((c : ℕ) → cell ≡ some c → cell' ≡ some c)
    → (q : Caller) → Agrees cell q
    → Agrees cell' q
Agrees-keeps cell cell' keep starting h = tt
Agrees-keeps cell cell' keep converting h = tt
Agrees-keeps cell cell' keep (storing c) h = tt
Agrees-keeps cell cell' keep reading (c, h) = (c, keep c h)
Agrees-keeps cell cell' keep failed h = tt
Agrees-keeps cell cell' keep (ready c) h = keep c h
Agrees-keeps cell cell' keep panicked h = h

CallerStep-Agrees :
    (cell : Option ℕ) (p : Caller) (cell' : Option ℕ) (p' : Caller)
    → CallerStep cell p cell' p'
    → Agrees cell p
    → Agrees cell' p'
CallerStep-Agrees _ _ _ _ (found c) h = refl
CallerStep-Agrees _ _ _ _ missing h = tt
CallerStep-Agrees _ _ _ _ (converted cell c) h = tt
CallerStep-Agrees _ _ _ _ (refused cell) h = tt
CallerStep-Agrees _ _ _ _ (stored c) h = (c, refl)
CallerStep-Agrees _ _ _ _ (raced c d) h = (d, refl)
CallerStep-Agrees _ _ _ _ (got c) h = refl
CallerStep-Agrees _ _ _ _ unwrapped (c, h) = absurd (cc)

All-Agrees :
    (cell cell' : Option ℕ)
    → ((c : ℕ) → cell ≡ some c → cell' ≡ some c)
    → (callers : List Caller) (i : ℕ) (p' : Caller) → All (Agrees cell) callers
    → Agrees cell' p'
    → All (Agrees cell') (set callers i p')
All-Agrees cell cell' keep [] i p' h new = tt
All-Agrees cell cell' keep (q ∷ callers) zero p' (a, h) new = (new, All-keeps callers h)
  where
    All-keeps : (l : List Caller) → All (Agrees cell) l → All (Agrees cell') l
    All-keeps [] h = tt
    All-keeps (x ∷ l) (b, k) = (Agrees-keeps cell cell' keep x b, All-keeps l k)
All-Agrees cell cell' keep (q ∷ callers) (suc i) p' (a, h) new =
    (Agrees-keeps cell cell' keep q a, All-Agrees cell cell' keep callers i p' h new)

new_callers-Agrees : (n : ℕ) → All (Agrees none) (new_callers n)
new_callers-Agrees zero = tt
new_callers-Agrees (suc n) = (tt, new_callers-Agrees n)

Reached-All : (n : ℕ) (s : Cache) → Reached n s → All (Agrees s.cell) s.callers
Reached-All n _ start = new_callers-Agrees n
Reached-All n _ (next s i caller caller' cell' r at move) =
    let h = Reached-All n s r in
    All-Agrees s.cell cell' (λ c. CallerStep-keeps s.cell caller cell' caller' {c = c} move)
      s.callers i caller' h
      (CallerStep-Agrees s.cell caller cell' caller' move
        (get_elem?-All (Agrees s.cell) s.callers i h at))

-- Whatever the order of their steps: no caller's `unwrap` panics, the cell is filled for each caller that
-- stands before its second `get`, and each that has got a configuration has got the one in the cell.
pub Reached-Agrees :
    (n : ℕ) (s : Cache) (i : ℕ) {caller : Caller}
    → Reached n s
    → get_elem? s.callers i ≡ some caller
    → Agrees s.cell caller
Reached-Agrees n s i r at = get_elem?-All (Agrees s.cell) s.callers i (Reached-All n s r) at
