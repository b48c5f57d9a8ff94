-- ===== src/Rules/Step.antt =====
-- Steps on a state that may return early, and what survives them.
use optilog_artifacts.Prelude.{Bool, true, false, Option, none, some, ◌≡◌, refl, arith}

abbrev pub Step : Type 0 → Type 0 → Type 0
Step S A = S → Option A × S

infixl 5 ◌>>=◌ ◌>>◌
abbrev pub next : {S A B : Type 0} → (A → Step S B) → Option A × S → Option B × S
next f (none, s) = (none, s)
next f (some a, s) = f a s

abbrev pub ◌>>=◌ : {S A B : Type 0} → Step S A → (A → Step S B) → Step S B
◌>>=◌ m f s = next f (m s)

abbrev pub ◌>>◌ : {S B : Type 0} → Step S (Unit {0}) → Step S B → Step S B
m >> k = m >>= λ _. k

-- `return nil` unless the test holds.
abbrev pub guard : {S : Type 0} → Bool → Step S (Unit {0})
guard true s = (some tt, s)
guard false s = (none, s)

abbrev pub pure : {S A : Type 0} → A → Step S A
pure a s = (some a, s)

abbrev pub modify : {S : Type 0} → (S → S) → Step S (Unit {0})
modify f s = (some tt, f s)

-- `Holds I P m`: from a state with I, the step m leaves a state with I, and what it returns has P.
pub record Result {S A : Type 0} (I : S → Type 0) (P : A → Type 0) (r : Option A × S) : Type 0 where
  pub keeps : I r.1
  pub gives : (a : A) → r.0 ≡ some a → P a

abbrev pub Holds : {S A : Type 0} → (S → Type 0) → (A → Type 0) → Step S A → Type 0
Holds {S} I P m = (s : S) → I s → Result I P (m s)

module _ {S A B : Type 0} (I : S → Type 0) (P : A → Type 0) (Q : B → Type 0) where
  next-Result :
      (r : Option A × S) (f : A → Step S B)
      → Result I P r
      → ((a : A) → P a → Holds I Q (f a))
      → Result I Q (next f r)
  next-Result (none, s) f hr hf = record { keeps = hr.keeps; gives = λ b e. absurd (cc) }
  next-Result (some a, s) f hr hf = hf a (hr.gives a refl) s hr.keeps

  pub >>=-Holds :
      (m : Step S A) (f : A → Step S B)
      → Holds I P m
      → ((a : A) → P a → Holds I Q (f a))
      → Holds I Q (m >>= f)
  >>=-Holds m f hm hf s i = next-Result (m s) f (hm s i) hf

pub guard-Holds : {S : Type 0} (I : S → Type 0) (b : Bool) → Holds I (λ _. b ≡ true) (guard b)
guard-Holds I true s i = record { keeps = i; gives = λ a e. refl }
guard-Holds I false s i = record { keeps = i; gives = λ a e. absurd (cc) }

pub pure-Holds : {S A : Type 0} (I : S → Type 0) (P : A → Type 0) (a : A) → P a → Holds I P (pure a)
pure-Holds I P a h s i = record { keeps = i; gives = λ b e. ground arith }

-- `Moves R m`: the step m takes each state to one that R relates it to, whatever it returns.
pub record Moved {S A : Type 0} (R : S → S → Type 0) (s : S) (r : Option A × S) : Type 0 where
  pub moved : R s r.1

abbrev pub Moves : {S A : Type 0} → (S → S → Type 0) → Step S A → Type 0
Moves {S} R m = (s : S) → Moved R s (m s)

module _ {S : Type 0} (R : S → S → Type 0) (trans : (s t v : S) → R s t → R t v → R s v) where
  next-Moved :
      {A B : Type 0} (s : S) (r : Option A × S) (f : A → Step S B)
      → Moved R s r
      → ((a : A) → Moves R (f a))
      → Moved R s (next f r)
  next-Moved s (none, t) f h k = record { moved = h.moved }
  next-Moved s (some a, t) f h k = record { moved = trans s t _ h.moved (k a t).moved }

  pub >>=-Moves :
      {A B : Type 0} (m : Step S A) (f : A → Step S B)
      → Moves R m
      → ((a : A) → Moves R (f a))
      → Moves R (m >>= f)
  >>=-Moves m f h k s = next-Moved s (m s) f (h s) k

-- What a step leaves: where it returns early, a state with E, and else a state with J and an answer
-- with P.
pub record Ends {S A : Type 0} (P : A → Type 0) (J E : S → Type 0) (r : Option A × S) : Type 0 where
  pub early : r.0 ≡ none → E r.1
  pub late : (a : A) → r.0 ≡ some a → P a × J r.1

abbrev pub Triple :
    {S A : Type 0} → (S → Type 0) → (A → Type 0) → (S → Type 0) → (S → Type 0) → Step S A → Type 0
Triple {S} I P J E m = (s : S) → I s → Ends P J E (m s)

module _ {S A B : Type 0} (P : A → Type 0) (J E : S → Type 0) (Q : B → Type 0)
    (K : S → Type 0) where
  next-Ends :
      (r : Option A × S) (f : A → Step S B)
      → Ends P J E r
      → ((a : A) → P a → Triple J Q K E (f a))
      → Ends Q K E (next f r)
  next-Ends (none, s) f h k = record { early = λ _. h.early refl; late = λ b e. absurd (cc) }
  next-Ends (some a, s) f h k = let (p, j) = h.late a refl in k a p s j

  pub >>=-Triple :
      (I : S → Type 0) (m : Step S A) (f : A → Step S B)
      → Triple I P J E m
      → ((a : A) → P a → Triple J Q K E (f a))
      → Triple I Q K E (m >>= f)
  >>=-Triple I m f h k s i = next-Ends (m s) f (h s i) k

pub Holds-Triple :
    {S A : Type 0} (I E : S → Type 0) (P : A → Type 0) (m : Step S A)
    → ((s : S) → I s → E s)
    → Holds I P m
    → Triple I P I E m
Holds-Triple I E P m weaker h s i =
    let r = h s i in record { early = λ _. weaker _ r.keeps; late = λ a e. (r.gives a e, r.keeps) }

pub modify-Triple :
    {S : Type 0} (I J E : S → Type 0) (f : S → S)
    → ((s : S) → I s → J (f s))
    → Triple I (λ _. Unit {0}) J E (modify f)
modify-Triple I J E f h s i = record { early = λ e. absurd (cc); late = λ a e. (tt, h s i) }

Ends-state :
    {S A : Type 0} (E : S → Type 0) (P : A → Type 0) (r : Option A × S) → Ends P E E r → E r.1
Ends-state E P (none, t) q = q.early refl
Ends-state E P (some a, t) q = (q.late a refl).1

pub Triple-state :
    {S A : Type 0} (I E : S → Type 0) (P : A → Type 0) (m : Step S A) (s : S)
    → Triple I P E E m
    → I s
    → E (m s).1
Triple-state I E P m s h i = Ends-state E P (m s) (h s i)
