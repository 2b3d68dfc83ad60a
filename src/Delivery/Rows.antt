-- ===== src/Delivery/Rows.antt =====
-- What a statement on a table does to a property of its rows.
use fileagent.Prelude.{All, ◌≡◌, Bool, true, List, [], ◌∷◌, ◌++◌, Bool-cases, inl, inr}
use fileagent.Queue.Sql.{select, update, order_by, insert_by}

pub All-append :
    {A : Type 0} (P : A → Type 0) (l : List A) (x : A) → All P l → P x → All P (l ++ x ∷ [])
All-append P [] x h p = (p, tt)
All-append P (y ∷ l) x h p = (h.0, All-append P l x h.1 p)

pub All-select :
    {A : Type 0} (P : A → Type 0) (p : A → Bool) (l : List A) → All P l → All P (select p l)
unfolding select
All-select P p [] h = tt
All-select P p (x ∷ l) h = elim (Bool-cases (p x)) [
  | inl e ↦ rw e (h.0, All-select P p l h.1)
  | inr e ↦ rw e (All-select P p l h.1)
]

-- What the selection is for.
pub All-chosen : {A : Type 0} (p : A → Bool) (l : List A) → All (λ x. p x ≡ true) (select p l)
unfolding select
All-chosen p [] = tt
All-chosen p (x ∷ l) = elim (Bool-cases (p x)) [
  | inl e ↦ rw e (e, All-chosen p l)
  | inr e ↦ rw e (All-chosen p l)
]

pub All-insert_by :
    {A : Type 0} (P : A → Type 0) (b : A → A → Bool) (x : A) (l : List A)
    → P x
    → All P l
    → All P (insert_by b x l)
unfolding insert_by
All-insert_by P b x [] p h = (p, tt)
All-insert_by P b x (y ∷ l) p h = elim (Bool-cases (b y x)) [
  | inl e ↦ rw e (h.0, All-insert_by P b x l p h.1)
  | inr e ↦ rw e (p, h)
]

pub All-order_by :
    {A : Type 0} (P : A → Type 0) (b : A → A → Bool) (l : List A) → All P l → All P (order_by b l)
unfolding order_by
All-order_by P b [] h = tt
All-order_by P b (x ∷ l) h = All-insert_by P b x (order_by b l) h.0 (All-order_by P b l h.1)

pub All-update :
    {A : Type 0} (P : A → Type 0) (p : A → Bool) (f : A → A) (l : List A)
    → ((x : A) → P (f x))
    → All P l
    → All P (update p f l)
unfolding update
All-update P p f [] g h = tt
All-update P p f (x ∷ l) g h = elim (Bool-cases (p x)) [
  | inl e ↦ rw e (g x, All-update P p f l g h.1)
  | inr e ↦ rw e (h.0, All-update P p f l g h.1)
]

pub All-both :
    {A : Type 0} (P R T : A → Type 0) (l : List A)
    → ((x : A) → P x → R x → T x)
    → All P l
    → All R l
    → All T l
All-both P R T [] f p r = tt
All-both P R T (x ∷ l) f p r = (f x p.0 r.0, All-both P R T l f p.1 r.1)
