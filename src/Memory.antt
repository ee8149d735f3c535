-- ===== src/Memory.antt =====
-- The memory of the programs with linked nodes: an address holds at most one node. The address that
-- `malloc` returns is an argument of the operation that calls it, and `null` where it fails.
pub mod Chain
use c_programming_language.Base.{ℕ, Option, none, some, ◌==◌, if◌then◌else◌}

abbrev pub Ptr : Type 0
Ptr = ℕ

abbrev pub null : Ptr
null = 0

abbrev pub Store : Type 0 → Type 0
Store N = Ptr → Option N

-- The end of a run: a result in a new store, a read or a write through an address that holds no
-- node, or a loop that has used up its fuel.
pub data Run (N A : Type 0) : Type 0 where
  done : A → Store N → Run N A
  fault : Run N A
  out_of_fuel : Run N A

abbrev pub Cmd : Type 0 → Type 0 → Type 0
Cmd N A = Store N → Run N A

-- The run comes to a result, and the result and the store have the property.
abbrev pub Ends : {N A : Type 0} → (A → Store N → Type 0) → Run N A → Type 0
Ends P (done a s) = P a s
Ends P fault = ⊥
Ends P out_of_fuel = ⊥

module _ {N A : Type 0} where
  abbrev pub pure : A → Cmd N A
  pure a s = done a s

  abbrev pub resume : {B : Type 0} → Run N A → (A → Cmd N B) → Run N B
  resume (done a s) k = k a s
  resume fault k = fault
  resume out_of_fuel k = out_of_fuel

  pub Ends-mono :
      (P Q : A → Store N → Type 0) (r : Run N A)
      → Ends P r
      → ((a : A) (s : Store N) → P a s → Q a s)
      → Ends Q r
  Ends-mono P Q (done a s) p weaken = weaken a s p
  Ends-mono P Q fault p weaken = absurd p
  Ends-mono P Q out_of_fuel p weaken = absurd p

  -- A run goes on from what its first part ends with.
  pub Ends-bind :
      {B : Type 0} (P : A → Store N → Type 0) (Q : B → Store N → Type 0) (r : Run N A)
      (k : A → Cmd N B)
      → Ends P r
      → ((a : A) (s : Store N) → P a s → Ends Q (k a s))
      → Ends Q (resume r k)
  Ends-bind P Q (done a s) k p next = next a s p
  Ends-bind P Q fault k p next = absurd p
  Ends-bind P Q out_of_fuel k p next = absurd p

  infixl 5 ◌>>=◌ ◌>>◌
  abbrev pub ◌>>=◌ : {B : Type 0} → Cmd N A → (A → Cmd N B) → Cmd N B
  m >>= k = λ s. resume (m s) k

  abbrev pub ◌>>◌ : {B : Type 0} → Cmd N A → Cmd N B → Cmd N B
  m >> k = m >>= λ _. k

module _ {N : Type 0} where
  -- the store with another content at one address
  abbrev pub set_cell : Store N → Ptr → Option N → Store N
  set_cell s p c a = if a == p then c else s a

  abbrev pub loaded : Ptr → Store N → Option N → Run N N
  loaded p s none = fault
  loaded p s (some n) = done n s

  unfoldable pub load : Ptr → Cmd N N
  load p s = if p == null then fault else loaded p s (s p)

  abbrev pub stored : Ptr → N → Store N → Option N → Run N (Unit {0})
  stored p n s none = fault
  stored p n s (some m) = done tt (set_cell s p (some n))

  unfoldable pub store : Ptr → N → Cmd N (Unit {0})
  store p n s = if p == null then fault else stored p n s (s p)

  abbrev pub freed : Ptr → Store N → Option N → Run N (Unit {0})
  freed p s none = fault
  freed p s (some m) = done tt (set_cell s p none)

  -- `free(NULL)` does nothing.
  unfoldable pub free : Ptr → Cmd N (Unit {0})
  free p s = if p == null then done tt s else freed p s (s p)

  -- a successful `malloc`: the content of the new node is arbitrary
  unfoldable pub allocate : Ptr → N → Cmd N (Unit {0})
  allocate p n s = done tt (set_cell s p (some n))
