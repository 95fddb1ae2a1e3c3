-- ===== src/Stateful.antt =====
-- Code that changes a state and may throw, as the readers' queries are: the state is what it was
-- changed to when an exception is thrown.
use metadata_agent.Prelude.{Option, none, some, ◌≡◌, refl, sym, subst, arith}
use metadata_agent.Exceptions.{Result, ok, raise, Exception, ok_injective, null_dereference}

abbrev pub Act : Type 0 → Type 0 → Type 0
Act S A = S → Result A × S

-- The rest of the code after a call, with what it returned.
abbrev pub continue_with : {S A B : Type 0} → (A → Act S B) → Result A × S → Result B × S
continue_with f (ok a, s) = f a s
continue_with f (raise e, s) = (raise e, s)

infixl 5 ◌>>=◌
abbrev pub ◌>>=◌ : {S A B : Type 0} → Act S A → (A → Act S B) → Act S B
◌>>=◌ m f s = continue_with f (m s)

abbrev pub done : {S A : Type 0} → A → Act S A
done a s = (ok a, s)

-- A step that does not change the state.
abbrev pub lift : {S A : Type 0} → Result A → Act S A
lift r s = (r, s)

-- A call on what a json::value points to.
abbrev pub deref : {A : Type 0} → Option A → Result A
deref none = raise null_dereference
deref (some a) = ok a

-- A step ends well: what it returns and the state satisfy `P`, or what it throws and the state `E`.
abbrev pub Ends :
    {S A : Type 0} → (A → S → Type 0) → (Exception → S → Type 0) → Result A × S → Type 0
Ends P E (ok a, s) = P a s
Ends P E (raise e, s) = E e s

pub Ends-continue_with :
    {S A B : Type 0} (Q : A → S → Type 0) (P : B → S → Type 0) (E : Exception → S → Type 0)
    (f : A → Act S B) (p : Result A × S)
    → Ends Q E p
    → ((a : A) (s : S) → Q a s → Ends P E (f a s))
    → Ends P E (continue_with f p)
Ends-continue_with Q P E f (ok a, s) h k = k a s h
Ends-continue_with Q P E f (raise e, s) h k = h

pub Ends-any : {S A : Type 0} (p : Result A × S) → Ends (λ a s. Unit {0}) (λ e s. Unit {0}) p
Ends-any (ok a, s) = tt
Ends-any (raise e, s) = tt

-- A fact about the state after a step, whether it throws or not.
pub Ends-of_state :
    {S A : Type 0} (P : S → Type 0) (p : Result A × S) → P p.1 → Ends (λ a s. P s) (λ e s. P s) p
Ends-of_state P (ok a, s) h = h
Ends-of_state P (raise e, s) h = h

pub state_of_Ends :
    {S A : Type 0} (Q : A → Type 0) (P : S → Type 0) (p : Result A × S)
    → Ends (λ a s. Q a × P s) (λ e s. P s) p
    → P p.1 × ((a : A) → p.0 ≡ ok a → Q a)
state_of_Ends Q P (ok a, s) h = (h.1, λ b e. subst Q (ok_injective e) h.0)
state_of_Ends Q P (raise e, s) h = (h, λ b q. absurd (ground arith))

pub state-lift :
    {S A B : Type 0} (g : A → Result B) (p : Result A × S)
    → (continue_with (λ a. lift (g a)) p).1 ≡ p.1
state-lift g (ok a, s) = refl
state-lift g (raise e, s) = refl

-- What a step returns, and the state then, satisfy `P`, if it does not throw.
abbrev pub Returns : {S A : Type 0} → (A → S → Type 0) → Result A × S → Type 0
Returns P (ok a, s) = P a s
Returns P (raise e, s) = Unit

pub Returns-ok :
    {S A : Type 0} (P : A → Type 0) (p : Result A × S) (a : A)
    → Returns (λ b s. P b) p
    → p.0 ≡ ok a
    → P a
Returns-ok P (ok b, s) a h e = subst P (ok_injective e) h
Returns-ok P (raise x, s) a h e = absurd (ground arith)

pub Returns-continue_with :
    {S A B : Type 0} (P : B → S → Type 0) (f : A → Act S B) (p : Result A × S)
    → ((a : A) (s : S) → Returns P (f a s))
    → Returns P (continue_with f p)
Returns-continue_with P f (ok a, s) h = h a s
Returns-continue_with P f (raise e, s) h = tt

pub Returns-then :
    {S A B : Type 0} (Q : A → S → Type 0) (P : B → S → Type 0) (f : A → Act S B) (p : Result A × S)
    → Returns Q p
    → ((a : A) (s : S) → Q a s → Returns P (f a s))
    → Returns P (continue_with f p)
Returns-then Q P f (ok a, s) q h = h a s q
Returns-then Q P f (raise e, s) q h = tt

pub Returns-weaken :
    {S A : Type 0} (P Q : A → S → Type 0) (p : Result A × S)
    → ((a : A) (s : S) → P a s → Q a s)
    → Returns P p
    → Returns Q p
Returns-weaken P Q (ok a, s) f h = f a s h
Returns-weaken P Q (raise e, s) f h = tt

-- A result that is known.
pub Returns-of_known :
    {S A B : Type 0} (P : B → S → Type 0) (f : A → Act S B) (r : Result A) (a : A) (s : S)
    → r ≡ ok a
    → Returns P (f a s)
    → Returns P (continue_with f (r, s))
Returns-of_known P f r a s e h = subst (λ q. Returns P (continue_with f (q, s))) (sym e) h
