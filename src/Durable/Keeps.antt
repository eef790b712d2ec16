-- ===== src/Durable/Keeps.antt =====
-- Invariants of a machine's disk: what each part of a program keeps, the program keeps, wherever a loss
-- of power or an exception ends it.
use mindflayer_elderbrain.Base.{
  ℕ, zero, suc, ◌≡◌, refl, Bool, true, false, List, [], ◌∷◌, In, here, there, Result, ok, err,
}
use mindflayer_elderbrain.Durable.{
  Action, Machine, Outcome, spend, write, lift, require, for_each, proceed, proceed_keeps, ◌>>=◌,
  ◌>>◌,
}

write_on :
    {S : Type 0} (E : Type 0) (P : S → Type 0) (f : S → S) (p : ℕ) (s : S)
    → P s
    → P (f s)
    → P (let x : Outcome E (Unit {0}) × Machine S = spend p f s in x.1.disk)
write_on E P f zero s h k = h
write_on E P f (suc p) s h k = k

module _ (E : Type 0) {S : Type 0} (P : S → Type 0) where
  pub write_keeps :
      (f : S → S)
      → ((s : S) → P s → P (f s))
      → (m : Machine S) → P m.disk
      → P (let a : Action E S (Unit {0}) = write f in (a m).1.disk)
  write_keeps f k m h = write_on E P f m.power m.disk h (k m.disk h)

module _ {E S : Type 0} (P : S → Type 0) where
  abbrev pub Keeps : {A : Type 0} → Action E S A → Type 0
  Keeps a = (m : Machine S) → P m.disk → P (a m).1.disk

  pub bind_keeps :
      {A B : Type 0} (a : Action E S A) (f : A → Action E S B)
      → Keeps a
      → ((x : A) → Keeps (f x))
      → Keeps (a >>= f)
  bind_keeps a f ka kf m h = proceed_keeps (λ n. P n.disk) (a m) f (ka m h) (λ x e. kf x (a m).1)

  pub then_keeps :
      {A B : Type 0} (a : Action E S A) (b : Action E S B) → Keeps a → Keeps b → Keeps (a >> b)
  then_keeps a b ka kb = bind_keeps a (λ _. b) ka (λ _. kb)

  pub lift_at :
      {A B : Type 0} (r : Result E A) (g : A → Action E S B) (m : Machine S)
      → P m.disk
      → ((x : A) → r ≡ ok x → P (g x m).1.disk)
      → P (proceed (lift r m) g).1.disk
  lift_at (ok x) g m h k = k x refl
  lift_at (err e) g m h k = h

  -- The value that a read returns may be used.
  pub lift_keeps :
      {A B : Type 0} (f : S → Result E A) (g : A → Action E S B)
      → ((x : A) (m : Machine S) → f m.disk ≡ ok x → P m.disk → P (g x m).1.disk)
      → Keeps ((λ m. lift (f m.disk) m) >>= g)
  lift_keeps f g k m h = lift_at (f m.disk) g m h (λ x e. k x m e h)

  pub require_then_keeps :
      {A : Type 0} (b : Bool) (e : E) (rest : Action E S A)
      → (b ≡ true → Keeps rest)
      → Keeps (require b e >> rest)
  require_then_keeps true e rest k m h = k refl m h
  require_then_keeps false e rest k m h = h

  pub require_keeps : (b : Bool) (e : E) → Keeps (require b e)
  require_keeps true e = λ m h. h
  require_keeps false e = λ m h. h

  pub for_each_keeps :
      {A : Type 0} (xs : List A) (body : A → Action E S (Unit {0}))
      → ((x : A) → In x xs → Keeps (body x))
      → Keeps (for_each xs body)
  unfolding for_each
  for_each_keeps [] body k = λ m h. h
  for_each_keeps (x ∷ xs) body k =
      then_keeps (body x) (for_each xs body) (k x (here _ _ refl))
        (for_each_keeps xs body (λ y i. k y (there _ _ i)))

-- A program that starts where `P` holds leaves `Q`, however it ends.
abbrev pub Leads : {E S : Type 0} (P Q : S → Type 0) → {A : Type 0} → Action E S A → Type 0
Leads {S = S} P Q a = (m : Machine S) → P m.disk → Q (a m).1.disk

module _ {E S : Type 0} (P Q : S → Type 0) (weaker : (s : S) → P s → Q s) where
  pub then-Leads :
      {A B : Type 0} (a : Action E S A) (b : Action E S B)
      → Keeps P a
      → Leads P Q b
      → Leads P Q (a >> b)
  then-Leads a b ka lb m h =
      let kept = ka m h in
      proceed_keeps (λ n. Q n.disk) (a m) (λ _. b) (weaker (a m).1.disk kept)
        (λ x e q. lb (a m).1 kept)

  pub require_then-Leads :
      {A : Type 0} (b : Bool) (e : E) (rest : Action E S A)
      → (b ≡ true → Leads P Q rest)
      → Leads P Q (require b e >> rest)
  require_then-Leads true e rest l m h = l refl m h
  require_then-Leads false e rest l m h = weaker m.disk h

  pub lift-Leads :
      {A B : Type 0} (f : S → Result E A) (g : A → Action E S B)
      → ((x : A) → Leads P Q (g x))
      → Leads P Q ((λ m. lift (f m.disk) m) >>= g)
  lift-Leads f g l m h = lift_at Q (f m.disk) g m (weaker m.disk h) (λ x e. l x m h)

  -- A write that is made takes `P` to `M`, from which the rest leads on.
  spend_leads :
      {A : Type 0} (M : S → Type 0) (f : S → S) (rest : Action E S A) (p : ℕ) (s : S)
      → Q s
      → M (f s)
      → Leads M Q rest
      → Q (proceed (spend p f s) (λ _. rest)).1.disk
  spend_leads M f rest zero s q k l = q
  spend_leads M f rest (suc p) s q k l = l (record { disk = f s; power = p }) k

  pub write_then-Leads :
      {A : Type 0} (M : S → Type 0) (f : S → S) (rest : Action E S A)
      → ((s : S) → P s → M (f s))
      → Leads M Q rest
      → Leads P Q (write f >> rest)
  write_then-Leads M f rest k l m h =
      spend_leads M f rest m.power m.disk (weaker m.disk h) (k m.disk h) l
