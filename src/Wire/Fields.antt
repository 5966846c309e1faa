-- ===== src/Wire/Fields.antt =====
-- Reading back what `internalBinaryWrite` writes, field by field.
-- Code: sdk/typescript/src/gen/pgapp/v1
use mathlib.Core.List.{append_assoc}
use pgapp.Common.{
  ℕ, zero, suc, ◌+◌, ◌≤◌, ◌<◌, ◌≡◌, refl, sym, ◌∙◌, ap, subst, arith, Bool, true, false, none, some,
  lt→ltb, ltb_self, [], ◌++◌, length, length-append,
}
use pgapp.Common.Result.{Result, ok, throw}
use pgapp.Wire.{
  Bytes, Runtime, Reader, Message, MessageType, UnknownPolicy, done, Parser, assign, read_case,
  read_round, read_loop, write_if, ◌then_write◌, internal_binary_read, internal_binary_write, plain,
  target_or_create, WireType,
}
use pgapp.Wire.Documented.{IsDocumented, ReadsBack, FieldNumber, at}
use pgapp.Wire.Loop.{read_loop-more, read_loop-stop, read_loop_mono}

-- Inversion of two writes that succeed.
pub then_write-eq-ok :
    (a b : Result Bytes) {w : Bytes}
    → (a then_write b) ≡ ok w
    → (u : Bytes) × (v : Bytes) × (a ≡ ok u) × (b ≡ ok v) × (u ++ v ≡ w)
then_write-eq-ok (ok u) (ok v) e = (u, v, refl, refl, ground arith)
then_write-eq-ok (ok u) (throw x) e = cc
then_write-eq-ok (throw x) b e = cc

-- The loop reads the bytes that `writes` appends, and takes the object from `m` to `m'`.
pub record Reads {ℓ} {M : Type ℓ} (runtime : Runtime) (type : MessageType M)
    (policy : UnknownPolicy) (m : Message M) (writes : Result Bytes) (m' : Message M) : Type ℓ where
  pub reads :
      (w : Bytes)
      → writes ≡ ok w
      → (fuel fuel' end p : ℕ) (rest : Bytes) (x : Message M × Reader) → fuel + length w ≤ fuel'
      → p + length w ≤ end
      → read_loop runtime type policy fuel end m' (at (p + length w) rest) ≡ done x
      → read_loop runtime type policy fuel' end m (at p (w ++ rest)) ≡ done x

module _ {ℓ} {M : Type ℓ} {runtime : Runtime} {type : MessageType M} {policy : UnknownPolicy} where
  pub Reads-nothing : (m : Message M) → Reads runtime type policy m (ok []) m
  Reads-nothing m = record {
    reads = λ w e fuel fuel' end p rest x hf he r.
        let nothing : w ≡ [] = cc in
        let no_bytes : p + length w ≡ p = rw nothing (omega arith) in
        rw nothing (
          read_loop_mono runtime type policy fuel fuel' end m (at p rest) x (omega arith)
            (rw no_bytes at r));
  }

  pub Reads-then :
      {m m' m'' : Message M} {a b : Result Bytes}
      → Reads runtime type policy m a m'
      → Reads runtime type policy m' b m''
      → Reads runtime type policy m (a then_write b) m''
  Reads-then {m} {m' = m'} {m'' = m''} {a} {b} first second = record {
    reads = λ w e fuel fuel' end p rest x hf he r.
        let (u, v, eu, ev, joined) = then_write-eq-ok a b e in
        let sizes : length w ≡ length u + length v = ap length (sym joined) ∙ length-append u v in
        let place : p + length w ≡ (p + length u) + length v = omega (arith, sizes) in
        rw (← joined, append_assoc)
          (first.reads u eu (fuel + length v) fuel' end p (v ++ rest) x (omega (arith, sizes))
            (omega (arith, sizes))
            (second.reads v ev fuel (fuel + length v) end (p + length u) rest x (omega arith)
              (omega (arith, sizes)) (rw place at r)));
  }

  pub Reads-if :
      (test : Bool) {writes : Result Bytes} {m m' : Message M}
      → Reads runtime type policy m writes m'
      → (test ≡ false → m ≡ m')
      → Reads runtime type policy m (write_if test writes) m'
  Reads-if true reads same = reads
  Reads-if false {m} reads same =
      subst (λ k. Reads runtime type policy m (ok []) k) (same refl) (Reads-nothing m)

-- A case of the switch reads the bytes that `writes` appends, and gives `m`.
pub record ParsesTo {ℓ} {M : Type ℓ} (field : Parser M) (writes : Result Bytes) (m : M)
    : Type ℓ where
  pub parses :
      (w : Bytes)
      → writes ≡ ok w
      → (p : ℕ) (rest : Bytes) → field (at p (w ++ rest)) ≡ done (m, at (p + length w) rest)

pub ParsesTo-assign {ℓ κ ι} :
    {A : Type ℓ} {M : Type κ} (Fits : A → Type ι) (put : A → Result Bytes)
    (get : Reader → Result (A × Reader)) (set : A → M)
    → ReadsBack Fits put get
    → (a : A) → Fits a
    → ParsesTo (assign get set) (put a) (set a)
ParsesTo-assign Fits put get set back a fits = record {
  parses = λ w e p rest. rw (back a fits w e p rest);
}

module _ {ℓ} {M : Type ℓ} {runtime : Runtime} (documented : IsDocumented runtime)
    (type : MessageType M) (policy : UnknownPolicy) (field_no : ℕ) (t : WireType)
    (message : Message M) {field : Parser M} {body : M}
    (case : type.read_field policy field_no t message.body ≡ some field) where
  round_reads :
      (r r' r'' : Reader)
      → runtime.reader.tag r ≡ ok ((field_no, t), r')
      → field r' ≡ done (body, r'')
      → read_round runtime type policy message r ≡ done (record message { body = body }, r'')
  unfolding read_round read_case
  round_reads r r' r'' tag value = rw (tag, case, value)

  -- The loop on the bytes `u` of a tag and `v` of a value: one round.
  field_round :
      (u v : Bytes)
      → FieldNumber field_no
      → runtime.writer.tag field_no t ≡ ok u
      → ((p : ℕ) (rest : Bytes) → field (at p (v ++ rest)) ≡ done (body, at (p + length v) rest))
      → (fuel fuel' end p : ℕ) (rest : Bytes) (x : Message M × Reader)
      → fuel + (length u + length v) ≤ fuel'
      → p + (length u + length v) ≤ end
      → read_loop runtime type policy fuel end
          (record message { body = body })
          (at (p + length u + length v) rest)
        ≡ done x
      → read_loop runtime type policy fuel' end message (at p (u ++ (v ++ rest))) ≡ done x
  field_round u v numbered eu value fuel fuel' end p rest x hf he r =
      let tag = documented.tag field_no numbered t u eu p (v ++ rest) in
      let moved : p < p + length u = documented.tag_moves _ _ _ tag in
      with_fuel fuel' moved (omega arith)
        (round_reads (at p (u ++ (v ++ rest))) _ _ tag (value (p + length u) rest))
    where
      with_fuel :
          (fuel' : ℕ)
          → p < p + length u
          → fuel + 1 ≤ fuel'
          → read_round runtime type policy message (at p (u ++ (v ++ rest)))
            ≡ done (record message { body = body }, at (p + length u + length v) rest)
          → read_loop runtime type policy fuel' end message (at p (u ++ (v ++ rest))) ≡ done x
      with_fuel zero moved enough round = absurd (omega arith)
      with_fuel (suc k) moved enough round =
          rw
            (
              read_loop-more runtime type policy k end message (at p (u ++ (v ++ rest)))
                  (lt→ltb p end (omega arith)),
              round,
            )
            (read_loop_mono runtime type policy fuel k end _ _ x (omega arith) r)

  -- A field that is written as its tag and its value.
  pub Reads-field :
      {value : Result Bytes}
      → FieldNumber field_no
      → ParsesTo field value body
      → Reads runtime type policy message
          (runtime.writer.tag field_no t then_write value)
          (record message { body = body })
  Reads-field {value} numbered back = record {
    reads = λ w e fuel fuel' end p rest x hf he r.
        let (u, v, eu, ev, joined) = then_write-eq-ok (runtime.writer.tag field_no t) value e in
        let sizes : length w ≡ length u + length v = ap length (sym joined) ∙ length-append u v in
        let place : p + length w ≡ p + length u + length v = omega (arith, sizes) in
        rw (← joined, append_assoc)
          (field_round u v numbered eu (back.parses v ev) fuel fuel' end p rest x
            (omega (arith, sizes)) (omega (arith, sizes)) (rw place at r));
  }

-- `internalBinaryRead` gives back the object that `internalBinaryWrite` wrote.
pub internal_binary_read-write {ℓ} :
    {M : Type ℓ} {runtime : Runtime} (documented : IsDocumented runtime) (type : MessageType M)
    (policy : UnknownPolicy) (body : M) (w : Bytes)
    → Reads runtime type policy
        (target_or_create runtime type policy none)
        (type.write_fields true body)
        (plain body)
    → internal_binary_write runtime type true (plain body) ≡ ok w
    → (p : ℕ) (rest : Bytes)
    → internal_binary_read runtime type policy (length w) none (at p (w ++ rest))
      ≡ done (plain body, at (p + length w) rest)
unfolding internal_binary_read internal_binary_write
internal_binary_read-write documented type policy body w fields e p rest =
    (Reads-then fields (Reads-nothing (plain body))).reads w (rw documented.no_unknown at e) 0
      (length w) (p + length w) p rest (plain body, at (p + length w) rest) (omega arith)
      (omega arith)
      (read_loop-stop _ type policy 0 (p + length w) (plain body) (at (p + length w) rest)
        (ltb_self (p + length w)))
