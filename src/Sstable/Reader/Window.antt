-- ===== src/Sstable/Reader/Window.antt =====
-- The bytes of a segment, taken apart.
use native.Mathlib.Nat.{add-zero}
use amethyst.Base.{
  ℕ, zero, suc, ◌+◌, ◌-◌, ◌<◌, ◌≡◌, refl, ◌∙◌, ap, sym, List, [], ◌∷◌, ◌++◌, append-nil,
  append_assoc, Key, Bytes, put_uint32, put_uint64, length, get_or, drop, arith, length-append,
  drop-append, take-append,
}
use amethyst.Types.{KvEntry}
use amethyst.SparseIndex.{Builder, build}
use amethyst.Sstable.Writer.{
  DataLoop, write_entries, write_index, Layout, finish_layout, lay_out_from,
}
use amethyst.Sstable.Reader.{slice}
use amethyst.Sstable.Reader.Entry.{encode}
use amethyst.Sstable.Reader.Found.{encode_all}

unfoldable pub keys_of : List KvEntry → List Key
keys_of [] = []
keys_of (e ∷ es) = e.key ∷ keys_of es

-- the offsets of the entries, the first at `o`
unfoldable pub offsets_from : ℕ → List KvEntry → List ℕ
offsets_from o [] = []
offsets_from o (e ∷ es) = o ∷ offsets_from (o + length (encode e)) es

pub length-keys_of : (es : List KvEntry) → length (keys_of es) ≡ length es
unfolding keys_of
length-keys_of [] = refl
length-keys_of (e ∷ es) = ap suc (length-keys_of es)

pub length-offsets_from : (es : List KvEntry) (o : ℕ) → length (offsets_from o es) ≡ length es
unfolding offsets_from
length-offsets_from [] o = refl
length-offsets_from (e ∷ es) o = ap suc (length-offsets_from es _)

write_entries_step :
    (start : ℕ) (e : KvEntry) (es : List KvEntry) (s : DataLoop)
    → write_entries start (e ∷ es) s
      ≡ write_entries start es (record {
        buf = s.buf ++ encode e;
        keys = s.keys ++ (e.key ∷ []);
        offsets = s.offsets ++ ((length s.buf - start) ∷ []);
      })
unfolding write_entries encode
write_entries_step start e es s = refl

write_entries_lem :
    (es : List KvEntry) (head body : Bytes) (ks : List Key) (os : List ℕ)
    → write_entries (length head) es (record { buf = head ++ body; keys = ks; offsets = os })
      ≡ record {
        buf = head ++ (body ++ encode_all es);
        keys = ks ++ keys_of es;
        offsets = os ++ offsets_from (length body) es;
      }
unfolding encode_all keys_of offsets_from
write_entries_lem [] head body ks os =
    unfold write_entries in rw (append-nil body, append-nil ks, append-nil os)
write_entries_lem (e ∷ es) head body ks os =
    let at : length (head ++ body) - length head ≡ length body =
      omega (arith, length-append {0} head body) in
    let grown : (head ++ body) ++ encode e ≡ head ++ (body ++ encode e) =
      append_assoc head body (encode e) in
    let next =
      write_entries_lem es head (body ++ encode e) (ks ++ (e.key ∷ []))
        (os ++ (length body ∷ [])) in
    let long : length (body ++ encode e) ≡ length body + length (encode e) = length-append body _ in
    rw (write_entries_step, at, grown, next, long) (simp append_assoc)

-- The index and the footer stand behind the entries.
write_index-append :
    (ks : List Key) (os : List ℕ) (buf : Bytes)
    → (tail : Bytes) × (write_index ks os buf ≡ buf ++ tail)
unfolding write_index
write_index-append [] os buf = ([], sym (append-nil buf))
write_index-append (k ∷ ks) os buf =
    let item = put_uint32 (length k) ++ (k ++ put_uint64 (get_or os 0 0)) in
    let (tail, same) = write_index-append ks _ (buf ++ item) in
    (item ++ tail, same ∙ append_assoc buf item tail)

-- The bytes between two offsets.
pub slice_middle :
    (pre mid post : Bytes) (start stop : ℕ)
    → start ≡ length pre
    → stop ≡ length pre + length mid
    → slice (pre ++ (mid ++ post)) start stop ≡ mid
unfolding slice
slice_middle pre mid post start stop a b =
    let size : stop - start ≡ length mid = omega arith in
    rw (size, a, drop-append pre (mid ++ post)) (take-append mid post)

-- The entries from a position on are the bytes from its offset on.
pub encode_all-drop :
    (es : List KvEntry) (i o : ℕ)
    → i < length es
    → (front : Bytes) × (encode_all es ≡ front ++ encode_all (drop i es))
      × (get_or (offsets_from o es) i 0 ≡ o + length front)
unfolding encode_all offsets_from
encode_all-drop [] i o h = absurd (omega arith)
encode_all-drop (e ∷ es) zero o h = ([], refl, sym (add-zero o))
encode_all-drop (e ∷ es) (suc i) o h =
    let (front, same, at) = encode_all-drop es i (o + length (encode e)) (omega arith) in
    (
      encode e ++ front,
      ap (λ r. encode e ++ r) same ∙ sym (append_assoc (encode e) front _),
      omega (arith, at, length-append {0} (encode e) front),
    )

-- The parts of a segment's bytes.
pub record HasLayout (b : Builder) (es : List KvEntry) (head tail : Bytes) (out : Layout)
    : Type 0 where
  pub buf : out.buf ≡ head ++ (encode_all es ++ tail)
  pub data_start : out.data_start_offset ≡ length head
  pub sparse_start : out.sparse_offset ≡ length head + length (encode_all es)
  pub sparse : out.sparse ≡ build b (keys_of es) (offsets_from 0 es)

finish_layout_lem :
    (b : Builder) (head : Bytes) (es : List KvEntry)
    → (tail : Bytes) × HasLayout b es head tail (
        finish_layout b
          (length head)
          (record { buf = head ++ encode_all es; keys = keys_of es; offsets = offsets_from 0 es }))
unfolding finish_layout
finish_layout_lem b head es =
    let body = head ++ encode_all es in
    let index = build b (keys_of es) (offsets_from 0 es) in
    let (tail, same) = write_index-append index.keys index.offsets body in
    (
      tail ++ put_uint64 (length body),
      record {
        buf = rw same (simp append_assoc);
        data_start = refl;
        sparse_start = length-append head (encode_all es);
        sparse = refl;
      },
    )

pub lay_out_lem :
    (b : Builder) (head : Bytes) (es : List KvEntry)
    → (tail : Bytes) × HasLayout b es head tail (lay_out_from b head es)
unfolding lay_out_from
lay_out_lem b head es =
    let loop = write_entries_lem es head [] [] [] in
    let (tail, parts) = finish_layout_lem b head es in
    let same : write_entries (length head) es (record { buf = head; keys = []; offsets = [] })
        ≡ record { buf = head ++ encode_all es; keys = keys_of es; offsets = offsets_from 0 es } =
      rw append-nil at loop in
    (tail, rw same parts)
