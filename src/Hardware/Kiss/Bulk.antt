-- ===== src/Hardware/Kiss/Bulk.antt =====
-- The bulk decoder against the byte decoder.
use mathlib.Core.List.{append_assoc}
use openhop_core.Prelude.{
  ℕ, zero, suc, All, ◌<◌, ◌≡◌, inl, inr, refl, sym, ap, ◌∙◌, Bool, true, false, not, ◌&&◌, ◌||◌,
  none, some, List, [], ◌∷◌, ◌++◌, length, length-append, take, drop, take-append-drop, length-drop,
  arith, leb, ◌==◌, if◌then◌else◌, Bool-cases,
}
use openhop_core.Hardware.Kiss.{
  Decoder, fend, fesc, decode_kiss_byte, decode_bytes, decode_kiss, decode_loop, find, nearer,
  copy_run, on_escaped, on_delimiter, resume, resync,
}
use openhop_core.Hardware.Kiss.Codec.{decode_bytes-append}

abbrev pub is_delimiter : ℕ → Bool
is_delimiter b = b == fend || b == fesc

abbrev IsPlain : ℕ → Type 0
IsPlain b = is_delimiter b ≡ false

-- No FESC is directly followed by a delimiter; `esc` tells whether a FESC came last.
unfoldable pub well_escaped : Bool → List ℕ → Bool
well_escaped esc [] = true
well_escaped true (b ∷ bs) = not (is_delimiter b) && well_escaped false bs
well_escaped false (b ∷ bs) = well_escaped (b == fesc) bs

well_escaped-false :
    (e : Bool) (bs : List ℕ) → well_escaped e bs ≡ true → well_escaped false bs ≡ true
unfolding well_escaped
well_escaped-false true [] h = refl
well_escaped-false true (b ∷ bs) h = ground arith
well_escaped-false false bs h = h

-- The two searches find the first delimiter.
data Nearest (xs : List ℕ) : Type 0 where
  nowhere : nearer (find fend xs) (find fesc xs) ≡ none → All IsPlain xs → Nearest xs
  behind :
      (n b : ℕ) (rest : List ℕ)
      → nearer (find fend xs) (find fesc xs) ≡ some n
      → drop n xs ≡ b ∷ rest
      → All IsPlain (take n xs)
      → is_delimiter b ≡ true
      → Nearest xs

Nearest-cons : (x : ℕ) (xs : List ℕ) → IsPlain x → Nearest xs → Nearest (x ∷ xs)
unfolding find
Nearest-cons x xs plain (nowhere e all) = nowhere (ground arith) (plain, all)
Nearest-cons x xs plain (behind n b rest e split all delim) =
    behind (suc n) b rest (ground arith) split (plain, all) delim

nearest : (xs : List ℕ) → Nearest xs
unfolding find
nearest [] = nowhere refl tt
nearest (x ∷ xs) = elim (Bool-cases (is_delimiter x)) [
  | inl delim ↦ behind 0 x xs (ground arith) refl tt delim
  | inr plain ↦ Nearest-cons x xs plain (nearest xs)
]

module _ {S : Type 0} (process : List ℕ → S → S) (frame_error : S → S) where
  plain_step :
      (b : ℕ) (d : Decoder S)
      → IsPlain b
      → d.escaped ≡ false
      → decode_kiss_byte process frame_error b d ≡ (
          if d.in_frame
          then (if leb 512 (length d.buffer)
              then resync process frame_error d
              else record d { buffer = d.buffer ++ b ∷ [] })
          else d)
  unfolding decode_kiss_byte
  plain_step b d plain unescaped = ground arith

  -- A run of plain bytes, one by one or at once.
  decode_bytes-run :
      (run : List ℕ) (d : Decoder S)
      → All IsPlain run
      → d.escaped ≡ false
      → decode_bytes process frame_error run d ≡ copy_run process frame_error run d
  unfolding decode_bytes copy_run
  decode_bytes-run [] d all plain = ground arith
  decode_bytes-run (b ∷ []) d all plain = rw (plain_step b d all.0 plain) (ground arith)
  decode_bytes-run (b ∷ c ∷ run) d all plain = rw (plain_step b d all.0 plain) (
      ground (
        arith,
        decode_bytes-run (c ∷ run) d all.1,
        decode_bytes-run (c ∷ run) (resync process frame_error d) all.1,
        decode_bytes-run (c ∷ run) (record d { buffer = d.buffer ++ b ∷ [] }) all.1,
        length-append d.buffer (b ∷ []),
        append_assoc d.buffer (b ∷ []) (c ∷ run),
      ))

  copy_run-escaped :
      (run : List ℕ) (d : Decoder S) → (copy_run process frame_error run d).escaped ≡ d.escaped
  unfolding copy_run
  copy_run-escaped run d = ground arith

  -- A delimiter behind plain bytes means the same to both.
  decode_kiss_byte-delimiter :
      (b : ℕ) (d : Decoder S)
      → is_delimiter b ≡ true
      → decode_kiss_byte process frame_error b d ≡ on_delimiter process frame_error b d
  unfolding decode_kiss_byte on_delimiter
  decode_kiss_byte-delimiter b d delim = ground arith

  decode_kiss_byte-escaped :
      (b : ℕ) (d : Decoder S)
      → is_delimiter b ≡ false
      → d.escaped ≡ true
      → decode_kiss_byte process frame_error b d ≡ on_escaped process frame_error b d
  unfolding decode_kiss_byte
  decode_kiss_byte-escaped b d plain esc = ground arith

  -- What is left behind a delimiter is still well escaped for the state that it leaves.
  after-delimiter :
      (xs : List ℕ) (n b : ℕ) (rest : List ℕ)
      → drop n xs ≡ b ∷ rest
      → All IsPlain (take n xs)
      → well_escaped false xs ≡ true
      → well_escaped (b == fesc) rest ≡ true
  unfolding well_escaped
  after-delimiter [] zero b rest split all h = cc
  after-delimiter [] (suc n) b rest split all h = cc
  after-delimiter (x ∷ xs) zero b rest split all h = ground arith
  after-delimiter (x ∷ xs) (suc n) b rest split all h =
      after-delimiter xs n b rest split all.1 (well_escaped-false (x == fesc) xs h)

  -- One round of the loop, at a state that is not escaped.
  round-eq :
      (xs : List ℕ) (n b : ℕ) (rest : List ℕ) (d : Decoder S)
      → drop n xs ≡ b ∷ rest
      → All IsPlain (take n xs)
      → is_delimiter b ≡ true
      → d.escaped ≡ false
      → decode_bytes process frame_error xs d
        ≡ decode_bytes process frame_error rest
            (on_delimiter process frame_error b (copy_run process frame_error (take n xs) d))
  round-eq xs n b rest d split all delim plain =
      ap (λ (ys : List ℕ). decode_bytes process frame_error ys d) (sym (take-append-drop n xs))
      ∙ decode_bytes-append process frame_error (take n xs) (drop n xs) d
      ∙ rw (split, decode_bytes-run (take n xs) d all plain)
          (unfold decode_bytes in rw (decode_kiss_byte-delimiter b _ delim))

  on_delimiter-escaped :
      (b : ℕ) (rest : List ℕ) (d : Decoder S)
      → is_delimiter b ≡ true
      → d.escaped ≡ false
      → well_escaped (b == fesc) rest ≡ true
      → well_escaped (on_delimiter process frame_error b d).escaped rest ≡ true
  unfolding on_delimiter
  on_delimiter-escaped b rest d delim plain h = ground (arith, well_escaped-false (b == fesc) rest)

  on_escaped-well_escaped :
      (b : ℕ) (rest : List ℕ) (d : Decoder S)
      → well_escaped true (b ∷ rest) ≡ true
      → (is_delimiter b ≡ false)
        × (well_escaped (on_escaped process frame_error b d).escaped rest ≡ true)
  unfolding well_escaped on_escaped
  on_escaped-well_escaped b rest d h = ground arith

  loop-escaped :
      (fuel b : ℕ) (rest : List ℕ) (d : Decoder S)
      → d.escaped ≡ true
      → decode_loop process frame_error (suc fuel) (b ∷ rest) d
        ≡ decode_loop process frame_error fuel rest (on_escaped process frame_error b d)
  unfolding decode_loop
  loop-escaped fuel b rest d esc = ground arith

  loop-nowhere :
      (fuel b : ℕ) (rest : List ℕ) (d : Decoder S)
      → d.escaped ≡ false
      → nearer (find fend (b ∷ rest)) (find fesc (b ∷ rest)) ≡ none
      → decode_loop process frame_error (suc fuel) (b ∷ rest) d
        ≡ some (copy_run process frame_error (b ∷ rest) d)
  unfolding decode_loop
  loop-nowhere fuel b rest d plain e = simp (plain, e)

  loop-behind :
      (fuel b n c : ℕ) (rest after : List ℕ) (d : Decoder S)
      → d.escaped ≡ false
      → nearer (find fend (b ∷ rest)) (find fesc (b ∷ rest)) ≡ some n
      → drop n (b ∷ rest) ≡ c ∷ after
      → decode_loop process frame_error (suc fuel) (b ∷ rest) d
        ≡ decode_loop process frame_error fuel after (
            on_delimiter process frame_error c (copy_run process frame_error (take n (b ∷ rest)) d))
  unfolding decode_loop resume
  loop-behind fuel b n c rest after d plain e split = simp (plain, e, split)

  decode_loop-decode_bytes :
      (fuel : ℕ) (xs : List ℕ) (d : Decoder S)
      → length xs < fuel
      → well_escaped d.escaped xs ≡ true
      → decode_loop process frame_error fuel xs d ≡ some (decode_bytes process frame_error xs d)
  decode_loop-decode_bytes zero xs d room h = absurd (omega arith)
  decode_loop-decode_bytes (suc fuel) [] d room h = unfold decode_loop decode_bytes in refl
  decode_loop-decode_bytes (suc fuel) (b ∷ rest) d room h = elim (Bool-cases d.escaped) [
    | inl esc ↦
        let (plain, next) = on_escaped-well_escaped b rest d (rw esc at h) in
        loop-escaped fuel b rest d esc
        ∙ decode_loop-decode_bytes fuel rest (on_escaped process frame_error b d) (omega arith) next
        ∙ unfold decode_bytes in rw (decode_kiss_byte-escaped b d plain esc)
    | inr plain ↦ elim (nearest (b ∷ rest)) [
      | nowhere e all ↦
          loop-nowhere fuel b rest d plain e
          ∙ ap some (sym (decode_bytes-run (b ∷ rest) d all plain))
      | behind n c after e split all delim ↦
          let copied : Decoder S = copy_run process frame_error (take n (b ∷ rest)) d in
          let unescaped : copied.escaped ≡ false = copy_run-escaped (take n (b ∷ rest)) d ∙ plain in
          loop-behind fuel b n c rest after d plain e split
          ∙ decode_loop-decode_bytes fuel after (on_delimiter process frame_error c copied)
              (omega (arith, length-drop n (b ∷ rest), ap (length {A = ℕ}) split))
              (on_delimiter-escaped c after copied delim unescaped
                (after-delimiter (b ∷ rest) n c after split all (rw plain at h)))
          ∙ ap some (sym (round-eq (b ∷ rest) n c after d split all delim plain))
    ]
  ]

  -- The bulk decoder does what feeding the bytes one by one does, on any state and any data in
  -- which no FESC is directly followed by FEND or FESC, also across the border of two reads; in
  -- particular its loop ends.
  pub decode_kiss-decode_bytes :
      (xs : List ℕ) (d : Decoder S)
      → well_escaped d.escaped xs ≡ true
      → decode_kiss process frame_error xs d ≡ some (decode_bytes process frame_error xs d)
  unfolding decode_kiss
  decode_kiss-decode_bytes xs d h = decode_loop-decode_bytes (suc (length xs)) xs d (omega arith) h

  -- Where a FESC is directly followed by FEND in a pending frame, the two differ: the byte decoder
  -- hands the frame on and starts the next, and the bulk decoder counts an error, drops it and
  -- leaves the frame.
  pub decoders_differ :
      (d : Decoder S)
      → d.in_frame ≡ true
      → d.escaped ≡ false
      → 0 < length d.buffer
      → (decode_bytes process frame_error (fesc ∷ fend ∷ []) d ≡ record {
        buffer = [];
        in_frame = true;
        escaped = false;
        sink = process d.buffer d.sink;
      })
        × (decode_kiss process frame_error (fesc ∷ fend ∷ []) d
            ≡ some (record {
              buffer = [];
              in_frame = false;
              escaped = false;
              sink = frame_error d.sink;
            }))
  unfolding decode_bytes decode_kiss_byte decode_kiss find
  decoders_differ d inside plain pending = (ground arith, ground arith)
