-- ===== src/Wire/Nested.antt =====
-- Lemmas about the reading of nested and repeated fields.
-- Code: sdk/typescript/src/gen/pgapp/v1
use mathlib.Core.List.{append_assoc, append-nil}
use pgapp.Common.{
  ℕ, ◌+◌, ◌≡◌, refl, sym, arith, true, Option, none, some, String, List, [], ◌∷◌, ◌++◌, length, All,
}
use pgapp.Common.Result.{Result, ok, throw}
use pgapp.Wire.{
  Bytes, Runtime, Message, MessageType, UnknownPolicy, done, call, Parser, assign, assign_parsed,
  write_each, ◌then_write◌, plain, length_delimited, internal_binary_read, internal_binary_write,
  join_written, write_nested, write_optional, read_nested,
}
use pgapp.Wire.Documented.{IsDocumented, FieldNumber, at, Anything}
use pgapp.Wire.Loop.{
  Moves, EndsFrom-le, EndsFrom-bind, call-Moves, Terminates, internal_binary_read-Moves,
}
use pgapp.Wire.Fields.{
  internal_binary_read-write, Reads, Reads-field, Reads-nothing, Reads-then, ParsesTo,
  ParsesTo-assign,
}

-- An object with the body `b` and no unknown field is read back from its bytes.
pub record RoundTrips {ℓ} {N : Type ℓ} (runtime : Runtime) (nested : MessageType N)
    (policy : UnknownPolicy) (b : N) : Type ℓ where
  pub trips :
      (w : Bytes)
      → internal_binary_write runtime nested true (plain b) ≡ ok w
      → (p : ℕ) (rest : Bytes)
      → internal_binary_read runtime nested policy (length w) none (at p (w ++ rest))
        ≡ done (plain b, at (p + length w) rest)

-- The same of a nested object.
pub record Trips {ℓ} {N : Type ℓ} (runtime : Runtime) (nested : MessageType N)
    (policy : UnknownPolicy) (m : Message N) : Type ℓ where
  pub known : m.unknown ≡ []
  pub back : RoundTrips runtime nested policy m.body

abbrev pub OptionTrips {ℓ} :
    {N : Type ℓ} → Runtime → MessageType N → UnknownPolicy → Option (Message N) → Type ℓ
OptionTrips runtime nested policy none = Unit
OptionTrips runtime nested policy (some m) = Trips runtime nested policy m

pub join_written-eq-ok :
    (runtime : Runtime) (o : Result Bytes) {w : Bytes}
    → join_written runtime o ≡ ok w
    → (b : Bytes) × (o ≡ ok b) × (runtime.writer.join b ≡ ok w)
unfolding join_written
join_written-eq-ok runtime (ok b) e = (b, refl, e)
join_written-eq-ok runtime (throw x) e = cc

module _ {ℓ κ} {M : Type ℓ} {N : Type κ} {runtime : Runtime} (documented : IsDocumented runtime)
    (nested : MessageType N) (policy : UnknownPolicy) where
  read_nested-ParsesTo :
      (set : Message N → M) (m : Message N)
      → Trips runtime nested policy m
      → ParsesTo
          (assign_parsed (read_nested runtime nested policy none) set)
          (join_written runtime (internal_binary_write runtime nested true m))
          (set m)
  unfolding read_nested
  read_nested-ParsesTo set m t = record {
    parses = λ w e p rest.
        let same : plain m.body ≡ m = λ i. record { body = m.body; unknown = sym t.known i } in
        let (b, written, joined) = join_written-eq-ok runtime _ e in
        let (k, size, read) = documented.join b w joined p rest in
        let inner = t.back.trips b (rw same written) (p + k) rest in
        let place : p + k + length b ≡ p + length w = omega (arith, size) in
        rw (read, inner, place, same);
  }

  module _ (type : MessageType M) where
    one_nested :
        (field_no : ℕ) (before : M) (set : Message N → M) (m : Message N)
        → FieldNumber field_no
        → type.read_field policy field_no length_delimited before
          ≡ some (assign_parsed (read_nested runtime nested policy none) set)
        → Trips runtime nested policy m
        → Reads runtime type policy
            (plain before)
            (write_nested runtime nested true field_no m)
            (plain (set m))
    unfolding write_nested
    one_nested field_no before set m numbered case t =
        Reads-field documented type policy field_no length_delimited (plain before) case numbered
          (read_nested-ParsesTo set m t)

    pub optional_field :
        (field_no : ℕ) (set : Option (Message N) → M) (o : Option (Message N))
        → FieldNumber field_no
        → type.read_field policy field_no length_delimited (set none)
          ≡ some (assign_parsed (read_nested runtime nested policy none) (λ n. set (some n)))
        → OptionTrips runtime nested policy o
        → Reads runtime type policy
            (plain (set none))
            (write_optional runtime nested true field_no o)
            (plain (set o))
    unfolding write_optional
    optional_field field_no set none numbered case t = Reads-nothing _
    optional_field field_no set (some m) numbered case t =
        one_nested field_no (set none) (λ n. set (some n)) m numbered case t

    repeated_from :
        (field_no : ℕ) (set : List (Message N) → M) (front items : List (Message N))
        → FieldNumber field_no
        → ((l : List (Message N))
            → type.read_field policy field_no length_delimited (set l)
              ≡ some
                  (assign_parsed (read_nested runtime nested policy none) (λ n. set (l ++ n ∷ []))))
        → All (Trips runtime nested policy) items
        → Reads runtime type policy
            (plain (set front))
            (write_each (write_nested runtime nested true field_no) items)
            (plain (set (front ++ items)))
    repeated_from field_no set front [] numbered case t = rw append-nil (Reads-nothing _)
    repeated_from field_no set front (m ∷ items) numbered case (h, t) =
        Reads-then
          (one_nested field_no (set front) (λ n. set (front ++ n ∷ [])) m numbered (case front) h)
          (rw append_assoc at (repeated_from field_no set (front ++ m ∷ []) items numbered case t))

    pub repeated_field :
        (field_no : ℕ) (set : List (Message N) → M) (items : List (Message N))
        → FieldNumber field_no
        → ((l : List (Message N))
            → type.read_field policy field_no length_delimited (set l)
              ≡ some
                  (assign_parsed (read_nested runtime nested policy none) (λ n. set (l ++ n ∷ []))))
        → All (Trips runtime nested policy) items
        → Reads runtime type policy
            (plain (set []))
            (write_each (write_nested runtime nested true field_no) items)
            (plain (set items))
    repeated_field field_no set items = repeated_from field_no set [] items

module _ {κ} {N : Type κ} {runtime : Runtime} (documented : IsDocumented runtime)
    (nested : MessageType N) (policy : UnknownPolicy) where
  pub read_nested-Moves :
      (target : Option (Message N))
      → Terminates nested
      → Moves (read_nested runtime nested policy target)
  unfolding read_nested
  read_nested-Moves target ends = record {
    moves = λ r.
        EndsFrom-bind r.pos (call (runtime.reader.uint32 r)) _
          ((call-Moves runtime.reader.uint32 documented.uint32_moves).moves r)
          (λ size r' le.
            EndsFrom-le r.pos r'.pos _ le
              ((internal_binary_read-Moves documented nested ends policy size target).moves r'));
  }

pub assign_parsed-Moves {ℓ κ} :
    {A : Type ℓ} {B : Type κ} (parser : Parser A) (set : A → B)
    → Moves parser
    → Moves (assign_parsed parser set)
assign_parsed-Moves parser set moves = record {
  moves = λ r. EndsFrom-bind r.pos (parser r) _ (moves.moves r) (λ a r' le. le);
}

module _ {ℓ} {M : Type ℓ} {runtime : Runtime} (documented : IsDocumented runtime)
    (type : MessageType M) (policy : UnknownPolicy) where
  strings_from :
      (field_no : ℕ) (set : List String → M) (front items : List String)
      → FieldNumber field_no
      → ((l : List String)
          → type.read_field policy field_no length_delimited (set l)
            ≡ some (assign runtime.reader.string (λ s. set (l ++ s ∷ []))))
      → Reads runtime type policy
          (plain (set front))
          (write_each
            (λ s. runtime.writer.tag field_no length_delimited then_write runtime.writer.string s)
            items)
          (plain (set (front ++ items)))
  strings_from field_no set front [] numbered case = rw append-nil (Reads-nothing _)
  strings_from field_no set front (s ∷ items) numbered case =
      Reads-then
        (Reads-field documented type policy field_no length_delimited (plain (set front))
          (case front) numbered
          (ParsesTo-assign Anything _ _ (λ s. set (front ++ s ∷ [])) documented.string s tt))
        (rw append_assoc at (strings_from field_no set (front ++ s ∷ []) items numbered case))

  pub strings_field :
      (field_no : ℕ) (set : List String → M) (items : List String)
      → FieldNumber field_no
      → ((l : List String)
          → type.read_field policy field_no length_delimited (set l)
            ≡ some (assign runtime.reader.string (λ s. set (l ++ s ∷ []))))
      → Reads runtime type policy
          (plain (set []))
          (write_each
            (λ s. runtime.writer.tag field_no length_delimited then_write runtime.writer.string s)
            items)
          (plain (set items))
  strings_field field_no set items = strings_from field_no set [] items

-- A nested object with no unknown field, whose body meets `Fits`.
abbrev pub MessageFits {ℓ κ} : {N : Type ℓ} → (N → Type κ) → Message N → Type κ
MessageFits Fits m = (m.unknown ≡ []) × Fits m.body

abbrev pub OptionFits {ℓ κ} : {N : Type ℓ} → (N → Type κ) → Option (Message N) → Type κ
OptionFits Fits none = Unit
OptionFits Fits (some m) = MessageFits Fits m

module _ {ℓ κ} {N : Type ℓ} {runtime : Runtime} {nested : MessageType N} {policy : UnknownPolicy}
    {Fits : N → Type κ} (trips : (b : N) → Fits b → RoundTrips runtime nested policy b) where
  pub OptionFits→OptionTrips :
      (o : Option (Message N)) → OptionFits Fits o → OptionTrips runtime nested policy o
  OptionFits→OptionTrips none fits = tt
  OptionFits→OptionTrips (some m) (known, fits) = record { known = known; back = trips m.body fits }

  pub All-MessageFits→Trips :
      (items : List (Message N))
      → All (MessageFits Fits) items
      → All (Trips runtime nested policy) items
  All-MessageFits→Trips [] fits = tt
  All-MessageFits→Trips (m ∷ items) ((known, fits), more) =
      (record { known = known; back = trips m.body fits }, All-MessageFits→Trips items more)

pub round_trips {ℓ} :
    {M : Type ℓ} {runtime : Runtime}
    → IsDocumented runtime
    → (type : MessageType M) (policy : UnknownPolicy) (m : M)
    → Reads runtime type policy (plain type.create) (type.write_fields true m) (plain m)
    → RoundTrips runtime type policy m
round_trips documented type policy m fields = record {
  trips = λ w e p rest. internal_binary_read-write documented type policy m w fields e p rest;
}
