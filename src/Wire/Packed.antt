-- ===== src/Wire/Packed.antt =====
-- Reading back a packed field of `int64`.
-- Code: sdk/typescript/src/gen/pgapp/v1
use mathlib.Core.List.{append_assoc, append-nil}
use pgapp.Common.{
  ℕ, zero, suc, ◌+◌, ◌≤◌, ◌<◌, ◌^◌, ◌≡◌, sym, ◌∙◌, ap, arith, false, some, lt→ltb, ltb_self, not,
  is_empty, String, List, [], ◌∷◌, ◌++◌, length, length-append, All,
}
use pgapp.Common.Result.{ok}
use pgapp.Number.{IsInt64}
use pgapp.Wire.{
  Bytes, Runtime, MessageType, UnknownPolicy, done, call, assign_parsed, write_each, write_if,
  plain, length_delimited, join_written, write_packed, read_packed_int64, read_packed,
}
use pgapp.Wire.Documented.{IsDocumented, FieldNumber, at}
use pgapp.Wire.Loop.{
  Moves, EndsFrom-le, EndsFrom-bind, call-Moves, read_packed-more, read_packed-stop,
  read_packed-EndsFrom,
}
use pgapp.Wire.Fields.{then_write-eq-ok, Reads, Reads-if, Reads-field, ParsesTo}
use pgapp.Wire.Nested.{join_written-eq-ok}

-- The packed bytes, if they can be written, have a length that is an `int32`.
abbrev pub PackedFits : Runtime → List String → Type 0
PackedFits runtime items =
    (b : Bytes) → write_each runtime.writer.int64 items ≡ ok b → length b < 2 ^ 31

is_empty→nil : (items : List String) → not (is_empty items) ≡ false → items ≡ []
is_empty→nil items e = ground arith

module _ {runtime : Runtime} (documented : IsDocumented runtime) where
  packed_item :
      (fuel end p : ℕ) (acc : List String) (s : String) (u rest : Bytes)
      → IsInt64 s
      → runtime.writer.int64 s ≡ ok u
      → p < end
      → read_packed runtime.reader.int64 (suc fuel) end acc (at p (u ++ rest))
        ≡ read_packed runtime.reader.int64 fuel end (acc ++ s ∷ []) (at (p + length u) rest)
  packed_item fuel end p acc s u rest fit eu h = rw (
    read_packed-more runtime.reader.int64 fuel end acc (at p (u ++ rest)) (lt→ltb p end h),
    documented.int64 s fit u eu p rest,
  )

  int64_grows : (s : String) (u : Bytes) → IsInt64 s → runtime.writer.int64 s ≡ ok u → 0 < length u
  int64_grows s u fit eu =
      let moved : 0 < 0 + length u =
        documented.int64_moves _ _ _ (documented.int64 s fit u eu 0 []) in
      omega arith

  read_packed-write_each :
      (items acc : List String) (w : Bytes) (fuel end p : ℕ) (rest : Bytes)
      → All IsInt64 items
      → write_each runtime.writer.int64 items ≡ ok w
      → length w ≤ fuel
      → end ≡ p + length w
      → read_packed runtime.reader.int64 fuel end acc (at p (w ++ rest))
        ≡ done (acc ++ items, at end rest)
  read_packed-write_each [] acc w fuel end p rest fits e h place =
      let empty : w ≡ [] = cc in
      let here : end ≡ p = rw empty at place ∙ omega arith in
      rw (here, empty, append-nil)
        (read_packed-stop runtime.reader.int64 fuel p acc (at p rest) (ltb_self p))
  read_packed-write_each (s ∷ items) acc w zero end p rest (fit, fits) e h place =
      let (u, v, eu, ev, joined) = then_write-eq-ok (runtime.writer.int64 s) _ e in
      let sizes : length w ≡ length u + length v = ap length (sym joined) ∙ length-append u v in
      absurd (omega (arith, sizes, int64_grows s u fit eu))
  read_packed-write_each (s ∷ items) acc w (suc fuel) end p rest (fit, fits) e h place =
      let (u, v, eu, ev, joined) = then_write-eq-ok (runtime.writer.int64 s) _ e in
      let sizes : length w ≡ length u + length v = ap length (sym joined) ∙ length-append u v in
      let grows = int64_grows s u fit eu in
      let later =
        read_packed-write_each items (acc ++ s ∷ []) v fuel end (p + length u) rest fits ev
          (omega (arith, sizes, grows)) (omega (arith, sizes)) in
      rw (← joined, append_assoc)
        (packed_item fuel end p acc s u (v ++ rest) fit eu (omega (arith, sizes, grows))
          ∙ (rw append_assoc at later))

  read_packed_int64-ParsesTo :
      {M : Type 0} (set : List String → M) (items : List String)
      → All IsInt64 items
      → PackedFits runtime items
      → ParsesTo
          (assign_parsed (read_packed_int64 runtime []) set)
          (join_written runtime (write_each runtime.writer.int64 items))
          (set items)
  unfolding read_packed_int64
  read_packed_int64-ParsesTo set items fits small = record {
    parses = λ w e p rest.
        let (b, written, joined) = join_written-eq-ok runtime _ e in
        let (k, size, read) = documented.join_int32 b w joined (small b written) p rest in
        let place : p + k + length b ≡ p + length w = omega (arith, size) in
        let inner =
          read_packed-write_each items [] b (length b) (length b + (p + k)) (p + k) rest fits
            written (omega arith) (omega arith) in
        let there : length b + (p + k) ≡ p + length w = omega (arith, size) in
        rw (read, inner, there);
  }

  -- `if (message.items.length)`, packed.
  pub packed_field :
      {M : Type 0} (type : MessageType M) (policy : UnknownPolicy) (field_no : ℕ)
      (set : List String → M) (items : List String)
      → FieldNumber field_no
      → type.read_field policy field_no length_delimited (set [])
        ≡ some (assign_parsed (read_packed_int64 runtime []) set)
      → All IsInt64 items
      → PackedFits runtime items
      → Reads runtime type policy
          (plain (set []))
          (write_if (not (is_empty items)) (write_packed runtime field_no items))
          (plain (set items))
  unfolding write_packed
  packed_field type policy field_no set items numbered case fits small =
      Reads-if _
        (Reads-field documented type policy field_no length_delimited (plain (set [])) case numbered
          (read_packed_int64-ParsesTo set items fits small))
        (λ e. ap (λ l. plain (set l)) (sym (is_empty→nil items e)))

  pub read_packed_int64-Moves : (items : List String) → Moves (read_packed_int64 runtime items)
  unfolding read_packed_int64
  read_packed_int64-Moves items = record {
    moves = λ r.
        EndsFrom-bind r.pos (call (runtime.reader.int32 r)) _
          ((call-Moves runtime.reader.int32 documented.int32_moves).moves r)
          (λ size r' le. EndsFrom-le r.pos r'.pos _ le (
            read_packed-EndsFrom runtime.reader.int64 documented.int64_moves _ _ items r'
              (omega arith)));
  }
