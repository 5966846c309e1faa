-- ===== src/Wire/Loop.antt =====
-- Lemmas about the loop of `internalBinaryRead`.
-- Code: sdk/typescript/src/gen/pgapp/v1
use pgapp.Common.{
  ℕ, zero, suc, ◌+◌, ◌≤◌, ◌<◌, ◌≡◌, refl, sym, ◌∙◌, if◌then◌else◌, arith, Bool, true, false, Option,
  none, some, ltb, inl, inr, Bool-cases, String, List, [], ◌∷◌, ◌++◌,
}
use pgapp.Common.Result.{Result, ok, throw}
use pgapp.Wire.{
  Runtime, Reader, Message, MessageType, UnknownPolicy, refuse, keep, discard, Outcome, done,
  thrown, out_of_fuel, ◌>>=◌, Parser, call, assign, read_packed, read_unknown, read_case,
  read_round, read_loop, internal_binary_read, target_or_create, WireType,
}
use pgapp.Wire.Documented.{IsDocumented, Advances}

-- The outcome is one of the program's, and the reader has not gone back.
abbrev pub EndsFrom {ℓ} : {A : Type ℓ} → ℕ → Outcome (A × Reader) → Type 0
EndsFrom p (done (a, r)) = p ≤ r.pos
EndsFrom p (thrown e) = Unit
EndsFrom p out_of_fuel = ⊥

pub record Moves {ℓ} {A : Type ℓ} (parser : Parser A) : Type 0 where
  pub moves : (r : Reader) → EndsFrom r.pos (parser r)

abbrev CaseMoves {ℓ} : {A : Type ℓ} → Option (Parser A) → Type 0
CaseMoves none = Unit
CaseMoves (some field) = Moves field

pub record CaseEnds {ℓ} {A : Type ℓ} (case : Option (Parser A)) : Type 0 where
  pub ends : CaseMoves case

-- Each case of a class's switch ends.
abbrev pub Terminates {ℓ} : {M : Type ℓ} → MessageType M → Type ℓ
Terminates {M} type =
    (policy : UnknownPolicy) (field_no : ℕ) (t : WireType) (m : M)
    → CaseEnds (type.read_field policy field_no t m)

pub default_ends {ℓ} : {A : Type ℓ} → CaseEnds {A = A} none
default_ends = record { ends = tt }

pub either_ends {ℓ} :
    {A : Type ℓ} (test : Bool) (a b : Option (Parser A))
    → CaseEnds a
    → CaseEnds b
    → CaseEnds (if test then a else b)
either_ends true a b h k = h
either_ends false a b h k = k

pub case_ends {ℓ} :
    {A : Type ℓ} (test : Bool) (field : Parser A) (more : Option (Parser A))
    → Moves field
    → CaseEnds more
    → CaseEnds (if test then some field else more)
case_ends test field more h = either_ends test (some field) more (record { ends = h })

-- To bind `f`, which starts no earlier than `p`.
pub EndsFrom-bind {ℓ κ} :
    {A : Type ℓ} {B : Type κ} (p : ℕ) (o : Outcome (A × Reader))
    (f : A × Reader → Outcome (B × Reader))
    → EndsFrom p o
    → ((a : A) (r : Reader) → p ≤ r.pos → EndsFrom p (f (a, r)))
    → EndsFrom p (o >>= f)
EndsFrom-bind p (done (a, r)) f h k = k a r h
EndsFrom-bind p (thrown e) f h k = tt
EndsFrom-bind p out_of_fuel f h k = absurd h

-- Inversion of a bind that returns.
pub >>=-eq-done {ℓ κ} :
    {A : Type ℓ} {B : Type κ} (o : Outcome A) (f : A → Outcome B) {b : B}
    → (o >>= f) ≡ done b
    → (a : A) × (o ≡ done a) × (f a ≡ done b)
>>=-eq-done (done a) f e = (a, refl, e)
>>=-eq-done (thrown x) f e = cc
>>=-eq-done out_of_fuel f e = cc

pub EndsFrom-le {ℓ} :
    {A : Type ℓ} (p q : ℕ) (o : Outcome (A × Reader)) → p ≤ q → EndsFrom q o → EndsFrom p o
EndsFrom-le p q (done (a, r)) h k = omega arith
EndsFrom-le p q (thrown e) h k = tt
EndsFrom-le p q out_of_fuel h k = k

EndsFrom-call {ℓ} :
    {A : Type ℓ} (p : ℕ) (res : Result (A × Reader))
    → ((a : A) (r : Reader) → res ≡ ok (a, r) → p ≤ r.pos)
    → EndsFrom p (call res)
EndsFrom-call p (ok (a, r)) h = h a r refl
EndsFrom-call p (throw e) h = tt

pub call-Moves {ℓ} :
    {A : Type ℓ} (op : Reader → Result (A × Reader)) → Advances op → Moves (λ r. call (op r))
call-Moves op h = record { moves = λ r. EndsFrom-call r.pos (op r) (λ a r' e. h r a r' e) }

pub assign-Moves {ℓ κ} :
    {A : Type ℓ} {B : Type κ} (op : Reader → Result (A × Reader)) (set : A → B)
    → Advances op
    → Moves (assign op set)
assign-Moves op set h = record {
  moves = λ r. EndsFrom-bind r.pos (call (op r)) _ ((call-Moves op h).moves r) (λ a r' le. le);
}

module _ {ℓ} {A : Type ℓ} (op : Reader → Result (A × Reader)) where
  pub read_packed-more :
      (fuel end : ℕ) (items : List A) (r : Reader)
      → ltb r.pos end ≡ true
      → read_packed op (suc fuel) end items r
        ≡ (call (op r) >>= λ p. read_packed op fuel end (items ++ p.0 ∷ []) p.1)
  unfolding read_packed
  read_packed-more fuel end items r more = rw (more, read_packed)

  pub read_packed-stop :
      (fuel end : ℕ) (items : List A) (r : Reader)
      → ltb r.pos end ≡ false
      → read_packed op fuel end items r ≡ done (items, r)
  unfolding read_packed
  read_packed-stop zero end items r stop = rw (stop, read_packed)
  read_packed-stop (suc fuel) end items r stop = rw (stop, read_packed)

  read_packed-out :
      (end : ℕ) (items : List A) (r : Reader)
      → end ≤ r.pos
      → read_packed op zero end items r ≡ done (items, r)
  unfolding read_packed
  read_packed-out end items r h = ground arith

  -- The packed loop ends if its fuel reaches `end`, since each item takes a byte at least.
  pub read_packed-EndsFrom :
      ((r : Reader) (a : A) (r' : Reader) → op r ≡ ok (a, r') → r.pos < r'.pos)
      → (fuel end : ℕ) (items : List A) (r : Reader) → end ≤ r.pos + fuel
      → EndsFrom r.pos (read_packed op fuel end items r)
  read_packed-EndsFrom moves zero end items r h =
      rw (read_packed-out end items r (omega arith)) (omega arith)
  read_packed-EndsFrom moves (suc fuel) end items r h = elim (Bool-cases (ltb r.pos end)) [
    | inl more ↦ rw (read_packed-more fuel end items r more) (
        EndsFrom-le r.pos (suc r.pos) _ (omega arith) (
          EndsFrom-bind (suc r.pos) (call (op r)) _ (EndsFrom-call (suc r.pos) (op r) (moves r))
            (λ a r' le.
              EndsFrom-le (suc r.pos) r'.pos _ le
                (read_packed-EndsFrom moves fuel end (items ++ a ∷ []) r' (omega arith)))))
    | inr stop ↦ rw (read_packed-stop (suc fuel) end items r stop) (omega arith)
  ]

module _ {runtime : Runtime} (documented : IsDocumented runtime) where
  read_unknown-Moves {ℓ} :
      {M : Type ℓ} (policy : UnknownPolicy) (type_name : String) (field_no : ℕ) (t : WireType)
      (message : Message M)
      → Moves (read_unknown runtime policy type_name field_no t message)
  unfolding read_unknown
  read_unknown-Moves refuse type_name field_no t message = record { moves = λ r. tt }
  read_unknown-Moves keep type_name field_no t message = record {
    moves = (assign-Moves _ _ (documented.skip_moves t)).moves;
  }
  read_unknown-Moves discard type_name field_no t message = record {
    moves = (assign-Moves _ _ (documented.skip_moves t)).moves;
  }

  module _ {ℓ} {M : Type ℓ} (type : MessageType M) (terminates : Terminates type)
      (policy : UnknownPolicy) where
    read_case-Moves :
        (field_no : ℕ) (t : WireType) (message : Message M) (o : Option (Parser M))
        → CaseEnds o
        → (r : Reader)
        → EndsFrom r.pos (read_case runtime policy type.type_name field_no t message o r)
    unfolding read_case
    read_case-Moves field_no t message none ends r =
        (read_unknown-Moves policy _ field_no t message).moves r
    read_case-Moves field_no t message (some field) ends r =
        EndsFrom-bind r.pos (field r) _ (ends.ends.moves r) (λ m r' le. le)

    read_round-EndsFrom :
        (message : Message M) (r : Reader)
        → EndsFrom (suc r.pos) (read_round runtime type policy message r)
    unfolding read_round
    read_round-EndsFrom message r =
        EndsFrom-bind (suc r.pos) (call (runtime.reader.tag r)) _
          (EndsFrom-call (suc r.pos) (runtime.reader.tag r) (documented.tag_moves r))
          (λ tag r' le.
            EndsFrom-le (suc r.pos) r'.pos _ le (
              read_case-Moves tag.0 tag.1 message _ (terminates policy tag.0 tag.1 message.body)
                r'))

module _ {ℓ} {M : Type ℓ} (runtime : Runtime) (type : MessageType M) (policy : UnknownPolicy) where
  pub read_loop-more :
      (fuel end : ℕ) (message : Message M) (r : Reader)
      → ltb r.pos end ≡ true
      → read_loop runtime type policy (suc fuel) end message r ≡ (
          read_round runtime type policy message r >>= λ p.
          read_loop runtime type policy fuel end p.0 p.1)
  unfolding read_loop
  read_loop-more fuel end message r more = rw (more, read_loop)

  pub read_loop-stop :
      (fuel end : ℕ) (message : Message M) (r : Reader)
      → ltb r.pos end ≡ false
      → read_loop runtime type policy fuel end message r ≡ done (message, r)
  unfolding read_loop
  read_loop-stop zero end message r stop = rw (stop, read_loop)
  read_loop-stop (suc fuel) end message r stop = rw (stop, read_loop)

  read_loop-out :
      (end : ℕ) (message : Message M) (r : Reader) (x : Message M × Reader)
      → ltb r.pos end ≡ true
      → read_loop runtime type policy zero end message r ≡ done x
      → ⊥
  unfolding read_loop
  read_loop-out end message r x more e = ground arith

  -- A loop that ends on some fuel ends the same way on more.
  pub read_loop_mono :
      (fuel fuel' end : ℕ) (message : Message M) (r : Reader) (x : Message M × Reader)
      → fuel ≤ fuel'
      → read_loop runtime type policy fuel end message r ≡ done x
      → read_loop runtime type policy fuel' end message r ≡ done x
  read_loop_mono zero fuel' end message r x h e = elim (Bool-cases (ltb r.pos end)) [
    | inl more ↦ absurd (read_loop-out end message r x more e)
    | inr stop ↦
        read_loop-stop fuel' end message r stop ∙ sym (read_loop-stop zero end message r stop) ∙ e
  ]
  read_loop_mono (suc fuel) zero end message r x h e = absurd (omega arith)
  read_loop_mono (suc fuel) (suc fuel') end message r x h e = elim (Bool-cases (ltb r.pos end)) [
    | inl more ↦
        let (p, round, rest) =
          >>=-eq-done (read_round runtime type policy message r) _
            (rw (read_loop-more fuel end message r more) at e) in
        rw (read_loop-more fuel' end message r more, round)
          (read_loop_mono fuel fuel' end p.0 p.1 x (omega arith) rest)
    | inr stop ↦
        read_loop-stop (suc fuel') end message r stop
        ∙ sym (read_loop-stop (suc fuel) end message r stop)
        ∙ e
  ]

module _ {ℓ} {M : Type ℓ} {runtime : Runtime} (documented : IsDocumented runtime)
    (type : MessageType M) (terminates : Terminates type) (policy : UnknownPolicy) where
  read_loop-EndsFrom :
      (fuel end : ℕ) (message : Message M) (r : Reader)
      → end ≤ r.pos + fuel
      → EndsFrom r.pos (read_loop runtime type policy fuel end message r)
  read_loop-EndsFrom zero end message r h =
      rw (read_loop-stop runtime type policy zero end message r (ground arith)) (omega arith)
  read_loop-EndsFrom (suc fuel) end message r h = elim (Bool-cases (ltb r.pos end)) [
    | inl more ↦ rw (read_loop-more runtime type policy fuel end message r more) (
        EndsFrom-le r.pos (suc r.pos) _ (omega arith) (
          EndsFrom-bind (suc r.pos) (read_round runtime type policy message r) _
            (read_round-EndsFrom documented type terminates policy message r)
            (λ m r' le.
              EndsFrom-le (suc r.pos) r'.pos _ le
                (read_loop-EndsFrom fuel end m r' (omega arith)))))
    | inr stop ↦ rw (read_loop-stop runtime type policy (suc fuel) end message r stop) (omega arith)
  ]

  -- `internalBinaryRead` of a class ends on every input: it returns or throws, and has not gone back.
  pub internal_binary_read-Moves :
      (size : ℕ) (target : Option (Message M))
      → Moves (internal_binary_read runtime type policy size target)
  unfolding internal_binary_read
  internal_binary_read-Moves size target = record {
    moves = λ r.
        read_loop-EndsFrom size (r.pos + size) (target_or_create runtime type policy target) r
          (omega arith);
  }

pub int64_moves-Advances :
    {runtime : Runtime} → IsDocumented runtime → Advances runtime.reader.int64
int64_moves-Advances documented r s r' e = omega (arith, documented.int64_moves r s r' e)
