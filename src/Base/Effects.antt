-- ===== src/Base/Effects.antt =====
-- Calls that change the world and may fail. A Go function that returns `(A, error)` is an action:
-- it returns a value, returns an error, panics, or still waits when the events that it is given end;
-- what it changed before stays changed.
use native.Mathlib.Omega.{arith}
use mathlib.Core.Path.{◌≡◌, refl, ◌∙◌}
use mathlib.Core.Logic.{◌⊎◌, inl, inr, ◌≢◌}
use Prim.Native.String.{String}

-- An error of the code outside the program, or one that the program makes by `fmt.Errorf`.
pub data Error (F : Type 0) : Type 0 where
  failure : F → Error F
  errorf : String → Error F

-- What a call of outside code returns: its value, or its error.
pub data Reply (F : Type 0) (A : Type 0) : Type 0 where
  fine : A → Reply F A
  failed : F → Reply F A

pub data Result (F : Type 0) (A : Type 0) : Type 0 where
  ok : A → Result F A
  err : Error F → Result F A
  panic : Result F A
  waits : Result F A

abbrev pub Go : Type 0 → Type 0 → Type 0 → Type 0
Go W F A = W → Result F A × W

abbrev pub returned : {F A : Type 0} → Reply F A → Result F A
returned (fine a) = ok a
returned (failed f) = err (failure f)

module _ {W F A : Type 0} where
  abbrev pub pure : A → Go W F A
  pure a w = (ok a, w)

  abbrev pub throw : Error F → Go W F A
  throw e w = (err e, w)

  -- A nil pointer is dereferenced.
  abbrev pub crash : Go W F A
  crash w = (panic, w)

  -- A loop over a `select` has used up the events.
  abbrev pub wait : Go W F A
  wait w = (waits, w)

  -- `x, err := f(); if err != nil { return err }`
  abbrev pub call : (W → Reply F A × W) → Go W F A
  call op w = (returned (op w).0, (op w).1)

  -- `x, err := f()`, where the code looks at `err` itself
  abbrev pub observe : (W → Reply F A × W) → Go W F (Reply F A)
  observe op w = (ok (op w).0, (op w).1)

module _ {W F A B : Type 0} where
  abbrev pub continue : Result F A → (A → Go W F B) → W → Result F B × W
  continue (ok a) f w = f a w
  continue (err e) f w = (err e, w)
  continue panic f w = (panic, w)
  continue waits f w = (waits, w)

  infixl 5 ◌>>=◌ ◌>>◌
  abbrev pub ◌>>=◌ : Go W F A → (A → Go W F B) → Go W F B
  ◌>>=◌ m f w = continue (m w).0 f (m w).1

  abbrev pub ◌>>◌ : Go W F A → Go W F B → Go W F B
  m >> n = m >>= λ _. n

-- To split on a reply and keep the equation.
pub Reply-cases :
    {F A : Type 0} (r : Reply F A) → ((a : A) × (r ≡ fine a)) ⊎ ((f : F) × (r ≡ failed f))
Reply-cases (fine a) = inl (a, refl)
Reply-cases (failed f) = inr (f, refl)

pub returned-ok : {F A : Type 0} (r : Reply F A) {a : A} → returned r ≡ ok a → r ≡ fine a
returned-ok (fine a) e = ground arith
returned-ok (failed f) e = ground arith

pub returned-err :
    {F A : Type 0} (r : Reply F A) {e : Error F} → returned r ≡ err e → (f : F) × (r ≡ failed f)
returned-err (fine a) h = ground arith
returned-err (failed f) h = (f, refl)

continue-ok :
    {W F A B : Type 0} (r : Result F A) (f : A → Go W F B) (w : W) {b : B}
    → (continue r f w).0 ≡ ok b
    → (a : A) × (r ≡ ok a) × ((f a w).0 ≡ ok b) × (continue r f w ≡ f a w)
continue-ok (ok a) f w h = (a, refl, h, refl)
continue-ok (err e) f w h = cc
continue-ok panic f w h = cc
continue-ok waits f w h = cc

-- Inversion of a successful sequence, for proofs where the parts stay shut.
pub bind-ok :
    {W F A B : Type 0} (m : Go W F A) (f : A → Go W F B) (w : W) {b : B}
    → ((m >>= f) w).0 ≡ ok b
    → (a : A) × ((m w).0 ≡ ok a) × ((f a (m w).1).0 ≡ ok b) × ((m >>= f) w ≡ f a (m w).1)
bind-ok m f w h = continue-ok (m w).0 f (m w).1 h

continue-ne-waits :
    {W F A B : Type 0} (r : Result F A) (f : A → Go W F B) (w : W)
    → r ≢ waits
    → ((a : A) (w' : W) → (f a w').0 ≢ waits)
    → (continue r f w).0 ≢ waits
continue-ne-waits (ok a) f w h k = k a w
continue-ne-waits (err e) f w h k = λ p. cc
continue-ne-waits panic f w h k = λ p. cc
continue-ne-waits waits f w h k = λ p. h refl

-- A sequence whose parts return returns.
pub bind-ne-waits :
    {W F A B : Type 0} (m : Go W F A) (f : A → Go W F B) (w : W)
    → (m w).0 ≢ waits
    → ((a : A) (w' : W) → (f a w').0 ≢ waits)
    → ((m >>= f) w).0 ≢ waits
bind-ne-waits m f w h k = continue-ne-waits (m w).0 f (m w).1 h k

pub returned-ne-waits : {F A : Type 0} (r : Reply F A) → returned r ≢ waits
returned-ne-waits (fine a) = λ p. cc
returned-ne-waits (failed f) = λ p. cc

continue-keeps :
    {W F A B C : Type 0} (g : W → C) (r : Result F A) (f : A → Go W F B) (w v : W)
    → g w ≡ g v
    → ((a : A) (w' : W) → g (f a w').1 ≡ g w')
    → g (continue r f w).1 ≡ g v
continue-keeps g (ok a) f w v h k = k a w ∙ h
continue-keeps g (err e) f w v h k = h
continue-keeps g panic f w v h k = h
continue-keeps g waits f w v h k = h

-- A sequence whose parts keep a part of the world keeps it, whatever they return.
pub bind-keeps :
    {W F A B C : Type 0} (g : W → C) (m : Go W F A) (f : A → Go W F B) (w : W)
    → g (m w).1 ≡ g w
    → ((a : A) (w' : W) → g (f a w').1 ≡ g w')
    → g ((m >>= f) w).1 ≡ g w
bind-keeps g m f w h k = continue-keeps g (m w).0 f (m w).1 w h k

continue-carries :
    {W F A B : Type 0} (R : W → W → Type 0) (r : Result F A) (f : A → Go W F B) (w v : W)
    → ((a b c : W) → R a b → R b c → R a c)
    → R w v
    → ((a : A) → r ≡ ok a → R v (f a v).1)
    → R w (continue r f v).1
continue-carries R (ok a) f w v trans first next = trans w v _ first (next a refl)
continue-carries R (err e) f w v trans first next = first
continue-carries R panic f w v trans first next = first
continue-carries R waits f w v trans first next = first

-- A transitive relation that both parts of a sequence keep holds across the sequence, whatever it
-- returns; the second part may use what the first returned.
pub bind-carries :
    {W F A B : Type 0} (R : W → W → Type 0) (m : Go W F A) (f : A → Go W F B) (w : W)
    → ((a b c : W) → R a b → R b c → R a c)
    → R w (m w).1
    → ((a : A) → (m w).0 ≡ ok a → R (m w).1 (f a (m w).1).1)
    → R w ((m >>= f) w).1
bind-carries R m f w trans first next = continue-carries R (m w).0 f w (m w).1 trans first next
