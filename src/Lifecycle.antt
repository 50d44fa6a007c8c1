-- ===== src/Lifecycle.antt =====
-- The life of a request at the kube-apiserver, as a step relation on what is stored under each name:
-- the abstract view of all that the program does there.
pub mod Calls
pub mod Queries
pub mod Parts
pub mod Loops
pub mod Advances
pub mod Runs
pub mod Renewals
pub mod Collections
use kube_csr.Base.{String, ◌≡◌, Option, none, some, List, [], ◌∷◌, ◌++◌, str_eq, if◌then◌else◌}
use kube_csr.Env.{Csr}
use kube_csr.Approve.{approval_condition}
use kube_csr.Fetch.{annotations_after}

pub data Action : Type 0 where
  creation deletion approval annotation : Action

abbrev pub Store : Type 0
Store = String → Option Csr

-- The second store is the first with one name changed.
abbrev pub Puts : String → Option Csr → Store → Store → Type 0
Puts name r before after = (n : String) → after n ≡ (if str_eq name n then r else before n)

-- One change, of a kind that may happen to its name.
pub data Step (May : Action → String → Type 0) (before after : Store) : Type 0 where
  create :
      (name : String) (r : Csr)
      → May creation name
      → before name ≡ none
      → r.conditions ≡ []
      → Puts name (some r) before after
      → Step May before after
  delete :
      (name : String) (old : Csr)
      → May deletion name
      → before name ≡ some old
      → Puts name none before after
      → Step May before after
  approve :
      (name : String) (old new : Csr)
      → May approval name
      → before name ≡ some old
      → new.request ≡ old.request
      → new.conditions ≡ old.conditions ++ (approval_condition ∷ [])
      → Puts name (some new) before after
      → Step May before after
  annotate :
      (name now : String) (old new : Csr)
      → May annotation name
      → before name ≡ some old
      → new.request ≡ old.request
      → new.conditions ≡ old.conditions
      → new.annotations ≡ some (annotations_after now old.annotations)
      → Puts name (some new) before after
      → Step May before after

pub data Reach (May : Action → String → Type 0) (before : Store) : Store → Type 0 where
  here : Reach May before before
  next : {t u : Store} → Reach May before t → Step May t u → Reach May before u

module _ {May : Action → String → Type 0} where
  pub Reach-trans : {s t u : Store} → Reach May s t → Reach May t u → Reach May s u
  Reach-trans first here = first
  Reach-trans first (next rest step) = next (Reach-trans first rest) step

  pub Reach-of_eq : {s t : Store} → t ≡ s → Reach May s t
  Reach-of_eq e = rw e here

  pub Reach-of_Step : {s t : Store} → Step May s t → Reach May s t
  Reach-of_Step step = next here step

module _ {May May' : Action → String → Type 0}
    (weaken : (a : Action) (n : String) → May a n → May' a n) where
  Step-mono : {s t : Store} → Step May s t → Step May' s t
  Step-mono (create name r may free fresh at) = create name r (weaken _ _ may) free fresh at
  Step-mono (delete name old may there at) = delete name old (weaken _ _ may) there at
  Step-mono (approve name old new may there request conditions at) =
      approve name old new (weaken _ _ may) there request conditions at
  Step-mono (annotate name now old new may there request conditions annotations at) =
      annotate name now old new (weaken _ _ may) there request conditions annotations at

  -- What is reached while less is allowed is reached while more is.
  pub Reach-mono : {s t : Store} → Reach May s t → Reach May' s t
  Reach-mono here = here
  Reach-mono (next rest step) = next (Reach-mono rest) (Step-mono step)
