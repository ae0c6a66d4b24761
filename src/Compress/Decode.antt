-- ===== src/Compress/Decode.antt =====
-- The frames of the writer, read back by the format that the comments of compress.go give.
use nssh.Base.{ℕ, zero, suc, ◌+◌, ◌^◌, ◌≤◌, ◌<◌, ◌≡◌, refl, sym, ap, ◌∙◌, subst, arith}
use nssh.Base.{Option, none, some, List, [], ◌∷◌, ◌++◌, append_assoc, append-nil}
use nssh.Base.{
  ◌&&◌, not, ltb, leb, ◌==◌, if◌then◌else◌, length, take, drop, Bool-cases, Option-cases, inl, inr,
}
use nssh.Base.{
  length-drop, length-take, length-append, take-append-drop, take-append_front, drop-append_front,
  le→leb,
}
use nssh.Base.{ltb→lt, drop-drop}
use nssh.Wire.{put_uint32, uint32_at, uint16_at, byte_at}
use nssh.Compress.{Sink, CompressWriter, frame_header, write_full, write_compressed_frame}
use nssh.Compress.{
  write_raw_frame, write_deflated, write_block, write_blocks, write, compress_block_size,
}
use nssh.Compress.{compress_frame_flag_compressed, compress_min_block_size}
use nssh.Compress.Stream.{IsWriter, sent-write_full}

-- The payload of a frame: compressed if bit 0 of the flags is set.
abbrev pub open_payload : (List ℕ → Option (List ℕ)) → ℕ → List ℕ → Option (List ℕ)
open_payload inflate flags payload = if flags == 0 then some payload else inflate payload

abbrev pub append_decoded : Option (List ℕ) → Option (List ℕ) → Option (List ℕ)
append_decoded (some d) (some e) = some (d ++ e)
append_decoded (some d) none = none
append_decoded none o = none

-- The bytes behind a stream of whole frames, for at most `fuel` frames.
unfoldable pub decode : (List ℕ → Option (List ℕ)) → ℕ → List ℕ → Option (List ℕ)
decode inflate fuel [] = some []
decode inflate zero (x ∷ s) = none
decode inflate (suc fuel) (x ∷ s) =
    let n = uint32_at (x ∷ s) 0 in
    let behind = decode inflate fuel (drop (5 + n) (x ∷ s)) in
    if leb (5 + n) (length (x ∷ s))
    then append_decoded (open_payload inflate (byte_at (x ∷ s) 4) (take n (drop 5 (x ∷ s)))) behind
    else none

-- With any fuel from the length of the stream on, the stream decodes to `p`.
abbrev pub Decodes : (List ℕ → Option (List ℕ)) → List ℕ → List ℕ → Type 0
Decodes inflate s p = (fuel : ℕ) → length s ≤ fuel → decode inflate fuel s ≡ some p

field_length : (flags n : ℕ) (s : List ℕ) → n < 2 ^ 32 → uint32_at (frame_header flags n ++ s) 0 ≡ n
unfolding frame_header put_uint32 uint32_at uint16_at
field_length flags n s h = omega arith

field_flags : (flags n : ℕ) (s : List ℕ) → byte_at (frame_header flags n ++ s) 4 ≡ flags
unfolding frame_header put_uint32
field_flags flags n s = refl

behind_header : (flags n k : ℕ) (s : List ℕ) → drop (5 + k) (frame_header flags n ++ s) ≡ drop k s
unfolding frame_header put_uint32
behind_header flags n k s = sym (drop-drop k 5 (frame_header flags n ++ s))

length-frame : (flags n : ℕ) (s : List ℕ) → length (frame_header flags n ++ s) ≡ 5 + length s
unfolding frame_header put_uint32
length-frame flags n s = omega arith

-- One frame in front.
decode_step :
    (inflate : List ℕ → Option (List ℕ)) (f n x : ℕ) (s d e : List ℕ)
    → uint32_at (x ∷ s) 0 ≡ n
    → 5 + n ≤ length (x ∷ s)
    → open_payload inflate (byte_at (x ∷ s) 4) (take n (drop 5 (x ∷ s))) ≡ some d
    → decode inflate f (drop (5 + n) (x ∷ s)) ≡ some e
    → decode inflate (suc f) (x ∷ s) ≡ some (d ++ e)
unfolding decode
decode_step inflate f n x s d e len fits payload rest =
    rw (len, le→leb (5 + n) (length (x ∷ s)) fits, payload, rest) refl

pub Decodes-frame :
    (inflate : List ℕ → Option (List ℕ)) (flags : ℕ) (payload d s p : List ℕ)
    → length payload < 2 ^ 32
    → open_payload inflate flags payload ≡ some d
    → Decodes inflate s p
    → Decodes inflate (frame_header flags (length payload) ++ (payload ++ s)) (d ++ p)
unfolding frame_header put_uint32
Decodes-frame inflate flags payload d s p small opens behind zero h =
    absurd (omega (arith, length-frame flags (length payload) (payload ++ s)))
Decodes-frame inflate flags payload d s p small opens behind (suc f) h =
    let n = length payload in
    decode_step inflate f n _ _ d p (field_length flags n (payload ++ s) small)
      (omega (arith, length-frame flags n (payload ++ s), length-append payload s))
      (ap (open_payload inflate flags) (take-append_front payload s) ∙ opens)
      (ap (decode inflate f) (behind_header flags n n (payload ++ s) ∙ drop-append_front payload s)
        ∙ behind f (omega (arith, length-frame flags n (payload ++ s), length-append payload s)))

Decodes-nil : (inflate : List ℕ → Option (List ℕ)) → Decodes inflate [] []
unfolding decode
Decodes-nil inflate fuel h = refl

-- The bytes sent from `w` to `w'` decode to `p`.
pub record IsStreamOf {W : Type 0} (sent : W → List ℕ) (inflate : List ℕ → Option (List ℕ))
    (p : List ℕ) (w w' : W) : Type 0 where
  pub stream : List ℕ
  pub on_stream : sent w' ≡ sent w ++ stream
  pub decodes : decode inflate (length stream) stream ≡ some p

-- The same in front of any other stream, with any fuel that is enough.
pub record IsPartOf {W : Type 0} (sent : W → List ℕ) (inflate : List ℕ → Option (List ℕ))
    (p : List ℕ) (w w' : W) : Type 0 where
  pub stream : List ℕ
  pub on_stream : sent w' ≡ sent w ++ stream
  pub decodes : (s q : List ℕ) → Decodes inflate s q → Decodes inflate (stream ++ s) (p ++ q)

frames_assoc :
    (h payload others s : List ℕ)
    → h ++ (payload ++ (others ++ s)) ≡ (h ++ (payload ++ others)) ++ s
frames_assoc h payload others s = simp append_assoc

-- With nothing behind it.
whole :
    (inflate : List ℕ → Option (List ℕ)) (stream p : List ℕ)
    → ((s q : List ℕ) → Decodes inflate s q → Decodes inflate (stream ++ s) (p ++ q))
    → Decodes inflate stream p
whole inflate stream p h =
    subst (λ t. Decodes inflate t p) (append-nil stream)
      (subst (Decodes inflate (stream ++ [])) (append-nil p) (h [] [] (Decodes-nil inflate)))

module _ {W : Type 0} (sink : Sink W) (sent : W → List ℕ) (contract : IsWriter sink sent)
    (inflate : List ℕ → Option (List ℕ))
    (back : (b z : List ℕ) → sink.deflate b ≡ some z → inflate z ≡ some b) where
  -- What has been sent from `w` to `w'` is one frame, which opens to the block.
  record IsFrameOf (block : List ℕ) (w w' : W) : Type 0 where
    flags : ℕ
    payload : List ℕ
    on_stream : sent w' ≡ sent w ++ (frame_header flags (length payload) ++ payload)
    opens : open_payload inflate flags payload ≡ some block
    small : length payload < 2 ^ 32

  write_raw_frame-IsFrameOf :
      (block : List ℕ) (w : W)
      → length block < 2 ^ 32
      → (write_raw_frame sink block w).0 ≡ none
      → IsFrameOf block w (write_raw_frame sink block w).1
  unfolding write_raw_frame
  write_raw_frame-IsFrameOf block w small ok =
      elim (Option-cases (write_full sink (frame_header 0 (length block)) w).0) [
        | inr (err, e) ↦ cc (rw (e, write_raw_frame) at ok)
        | inl e ↦
            rw (e, write_raw_frame)
              (record {
                flags = 0;
                payload = block;
                on_stream =
                    sent-write_full sink sent contract block _ (rw (e, write_raw_frame) at ok)
                    ∙ ap (λ t. t ++ block)
                        (sent-write_full sink sent contract (frame_header 0 (length block)) w e)
                    ∙ append_assoc (sent w) (frame_header 0 (length block)) block;
                opens = refl;
                small = small;
              })
      ]

  write_deflated-IsFrameOf :
      (c : CompressWriter) (block : List ℕ) (o : Option (List ℕ)) (w : W)
      → length block < 2 ^ 32
      → sink.deflate block ≡ o
      → (write_deflated sink c block o w).0 ≡ none
      → IsFrameOf block w (write_deflated sink c block o w).2
  unfolding write_deflated write_compressed_frame
  write_deflated-IsFrameOf c block none w small d ok = cc
  write_deflated-IsFrameOf c block (some z) w small d ok =
      elim (Bool-cases (ltb (length z) (length block))) [
        | inl smaller ↦ rw smaller (record {
          flags = compress_frame_flag_compressed;
          payload = z;
          on_stream = sent-write_full sink sent contract _ w (rw smaller at ok);
          opens = back block z d;
          small = omega (arith, ltb→lt (length z) (length block) smaller);
        })
        | inr larger ↦ rw larger (write_raw_frame-IsFrameOf block w small (rw larger at ok))
      ]

  write_block-IsFrameOf :
      (c : CompressWriter) (block : List ℕ) (w : W)
      → length block < 2 ^ 32
      → (write_block sink c block w).0 ≡ none
      → IsFrameOf block w (write_block sink c block w).2
  unfolding write_block
  write_block-IsFrameOf c block w small ok =
      elim (Bool-cases (not c.raw_only && leb compress_min_block_size (length block))) [
        | inl tries ↦
            simp tries (
              write_deflated-IsFrameOf c block (sink.deflate block) w small refl (simp tries at ok))
        | inr raw ↦ simp raw (write_raw_frame-IsFrameOf block w small (simp raw at ok))
      ]

  write_blocks-IsPartOf :
      (rounds total : ℕ) (c : CompressWriter) (p : List ℕ) (w : W)
      → length p ≤ rounds
      → (write_blocks sink rounds total c p w).1 ≡ none
      → ((write_blocks sink rounds total c p w).0 ≡ total + length p)
        × IsPartOf sent inflate p w (write_blocks sink rounds total c p w).3
  unfolding write_blocks
  write_blocks-IsPartOf rounds total c [] w h ok = (
    omega arith,
    record { stream = []; on_stream = sym (append-nil (sent w)); decodes = λ s q d. d },
  )
  write_blocks-IsPartOf zero total c (x ∷ p) w h ok = absurd (omega arith)
  write_blocks-IsPartOf (suc rounds) total c (x ∷ p) w h ok =
      elim (Option-cases (write_block sink c block w).0) [
        | inr (err, e) ↦ cc (rw (e, write_blocks) at ok)
        | inl e ↦
            let f =
              write_block-IsFrameOf c block w
                (omega (arith, length-take compress_block_size (x ∷ p))) e in
            let (n, g) =
              write_blocks-IsPartOf rounds (total + length block) (write_block sink c block w).1
                others (write_block sink c block w).2
                (omega (arith, length-drop compress_block_size (x ∷ p)))
                (rw (e, write_blocks) at ok) in
            rw (e, write_blocks)
              (
                n
                    ∙ omega (
                      arith,
                      length-take compress_block_size (x ∷ p),
                      length-drop compress_block_size (x ∷ p),
                    ),
                record {
                  stream = frame_header f.flags (length f.payload) ++ (f.payload ++ g.stream);
                  on_stream =
                      g.on_stream
                      ∙ ap (λ t. t ++ g.stream) f.on_stream
                      ∙ append_assoc (sent w) (frame_header f.flags (length f.payload) ++ f.payload)
                          g.stream
                      ∙ ap (λ t. sent w ++ t)
                          (append_assoc (frame_header f.flags (length f.payload)) f.payload
                            g.stream);
                  decodes = λ s q d.
                      subst (λ t. Decodes inflate t ((x ∷ p) ++ q))
                        (frames_assoc (frame_header f.flags (length f.payload)) f.payload g.stream
                          s)
                        (subst (Decodes inflate _) (block_assoc q) (
                          Decodes-frame inflate f.flags f.payload block (g.stream ++ s)
                            (others ++ q) f.small f.opens (g.decodes s q d)));
                },
              )
      ]
    where
      block : List ℕ
      block = take compress_block_size (x ∷ p)

      others : List ℕ
      others = drop compress_block_size (x ∷ p)

      block_assoc : (q : List ℕ) → block ++ (others ++ q) ≡ (x ∷ p) ++ q
      block_assoc q =
          sym (append_assoc block others q)
          ∙ ap (λ t. t ++ q) (take-append-drop compress_block_size (x ∷ p))

  pub write-IsPartOf :
      (c : CompressWriter) (p : List ℕ) (w : W)
      → (write sink c p w).1 ≡ none
      → IsPartOf sent inflate p w (write sink c p w).3
  unfolding write
  write-IsPartOf c p w ok = (write_blocks-IsPartOf (length p) 0 c p w (omega arith) ok).1

  -- What Write has written without an error, on a channel that takes as many bytes off the front
  -- of a slice as it says, and with a deflate that an inflate undoes, counts as the whole slice
  -- and decodes to it by the format of the frames.
  pub write-IsStreamOf :
      (c : CompressWriter) (p : List ℕ) (w : W)
      → (write sink c p w).1 ≡ none
      → ((write sink c p w).0 ≡ length p) × IsStreamOf sent inflate p w (write sink c p w).3
  unfolding write
  write-IsStreamOf c p w ok =
      let (n, s) = write_blocks-IsPartOf (length p) 0 c p w (omega arith) ok in
      (
        n ∙ omega arith,
        record {
          stream = s.stream;
          on_stream = s.on_stream;
          decodes = whole inflate s.stream p s.decodes (length s.stream) (omega arith);
        },
      )
