-- ===== src/State.antt =====
-- A state monad for the devices: each is a record of the variables of its file, and a function of
-- the file that changes them is an action.

abbrev pub St : Type 0 → Type 0 → Type 0
St S A = S → A × S

abbrev pub Do : Type 0 → Type 0
Do S = St S (Unit {0})

infixl 5 ◌>>=◌ ◌>>◌
abbrev pub ◌>>=◌ : {S A B : Type 0} → St S A → (A → St S B) → St S B
◌>>=◌ m f s = let (a, s') = m s in f a s'

abbrev pub ◌>>◌ : {S B : Type 0} → Do S → St S B → St S B
◌>>◌ m k s = k (m s).1

abbrev pub pure : {S A : Type 0} → A → St S A
pure a s = (a, s)

abbrev pub skip : {S : Type 0} → Do S
skip s = (tt, s)

abbrev pub gets : {S A : Type 0} → (S → A) → St S A
gets f s = (f s, s)

abbrev pub modify : {S : Type 0} → (S → S) → Do S
modify f s = (tt, f s)
