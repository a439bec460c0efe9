-- ===== src/Crypto/Md5/Absorb.antt =====
-- libyod/crypto.c: what the MD5 context holds after any pieces of a message.
use libyod.Prelude.{
  ℕ, zero, suc, ◌+◌, ◌*◌, ◌%◌, ◌^◌, ◌≤◌, ◌<◌, ◌≡◌, refl, ◌∙◌, inl, inr, true, false, List, [], ◌∷◌,
  ◌++◌, arith, dec_lt, ltb, Bool-cases, length, length-append, take, drop, take-append_le,
  drop-append_le, length-drop, take-append_ge, length-take, ◌/◌, take-append, ◌-◌, drop-append_ge,
}
use libyod.Prelude.Bits.{low_six}
use libyod.Crypto.Md5.{
  Words, md5_block, md5_blocks, md5_count, paste, Md5Enc, ap, bit_and, md5_update, leb, sym,
  append-nil,
}

-- The loop takes whole blocks, and any fuel of the more_datas length is enough.
blocks_fuel :
    (fuel fuel' : ℕ) (s : Words) (msg : List ℕ)
    → length msg ≤ fuel
    → length msg ≤ fuel'
    → md5_blocks fuel s msg ≡ md5_blocks fuel' s msg
unfolding md5_blocks
blocks_fuel zero zero s msg h h' = refl
blocks_fuel zero (suc fuel') s [] h h' = refl
blocks_fuel zero (suc fuel') s (x ∷ msg) h h' = absurd (omega arith)
blocks_fuel (suc fuel) zero s [] h h' = refl
blocks_fuel (suc fuel) zero s (x ∷ msg) h h' = absurd (omega arith)
blocks_fuel (suc fuel) (suc fuel') s msg h h' =
    let len = length-drop 64 msg in
    elim (Bool-cases (ltb 63 (length msg))) [
      | inl more ↦ rw more (
          blocks_fuel fuel fuel' (md5_block s (take 64 msg)) (drop 64 msg) (ground arith)
            (ground arith))
      | inr stop ↦ rw stop
    ]

-- The words after all whole blocks of a message, and its rest.
abbrev pub chunks : Words → List ℕ → Words × List ℕ
chunks s msg = md5_blocks (length msg) s msg

pub chunks_stop : (s : Words) (msg : List ℕ) → length msg ≤ 63 → chunks s msg ≡ (s, msg)
unfolding md5_blocks
chunks_stop s [] h = refl
chunks_stop s (x ∷ msg) h = let stop : ltb 63 (suc (length msg)) ≡ false = ground arith in rw stop

chunks_step :
    (s : Words) (msg : List ℕ)
    → 63 < length msg
    → chunks s msg ≡ chunks (md5_block s (take 64 msg)) (drop 64 msg)
unfolding md5_blocks
chunks_step s [] h = absurd (omega arith)
chunks_step s (x ∷ msg) h =
    let more : ltb 63 (suc (length msg)) ≡ true = ground arith in
    let len = length-drop 64 (x ∷ msg) in
    rw more (
      blocks_fuel (length msg) (length (drop 64 (x ∷ msg))) _ (drop 64 (x ∷ msg)) (omega arith)
        (omega arith))

-- More data behind a message.
chunks-append :
    (fuel : ℕ) (s : Words) (msg more_data : List ℕ)
    → length msg ≤ fuel
    → chunks s (msg ++ more_data) ≡ chunks (chunks s msg).0 ((chunks s msg).1 ++ more_data)
chunks-append zero s [] more_data h = rw (chunks_stop s [] (omega arith))
chunks-append zero s (x ∷ msg) more_data h = absurd (omega arith)
chunks-append (suc fuel) s msg more_data h = elim (dec_lt 63 (length msg)) [
  | yes more ↦
      let len = length-drop 64 msg in
      rw (chunks_step s msg more) (
        chunks_step s (msg ++ more_data) (omega (arith, length-append msg more_data))
        ∙ rw
            (
              take-append_le 64 msg more_data (omega arith),
              drop-append_le 64 msg more_data (omega arith),
            )
            (chunks-append fuel (md5_block s (take 64 msg)) (drop 64 msg) more_data (omega arith)))
  | no stop ↦ rw (chunks_stop s msg (omega arith))
]

length-chunks :
    (fuel : ℕ) (s : Words) (msg : List ℕ)
    → length msg ≤ fuel
    → length (chunks s msg).1 ≡ length msg % 64
length-chunks zero s [] h = rw (chunks_stop s [] (omega arith)) (omega arith)
length-chunks zero s (x ∷ msg) h = absurd (omega arith)
length-chunks (suc fuel) s msg h = elim (dec_lt 63 (length msg)) [
  | yes more ↦
      let len = length-drop 64 msg in
      rw (chunks_step s msg more)
        (omega (arith, length-chunks fuel (md5_block s (take 64 msg)) (drop 64 msg) (omega arith)))
  | no stop ↦ rw (chunks_stop s msg (omega arith)) (omega arith)
]

md5_count_lem :
    (c0 c1 len : ℕ)
    → c0 < 2 ^ 32
    → c1 < 2 ^ 32
    → len < 2 ^ 32
    → ((md5_count c0 c1 len).0 + 2 ^ 32 * (md5_count c0 c1 len).1
        ≡ (c0 + 2 ^ 32 * c1 + 8 * len) % 2 ^ 64)
      × ((md5_count c0 c1 len).0 < 2 ^ 32)
      × ((md5_count c0 c1 len).1 < 2 ^ 32)
unfolding md5_count
md5_count_lem c0 c1 len h0 h1 hl =
    let bits = len % 2 ^ 32 * 8 % 2 ^ 32 in
    elim (Bool-cases (ltb ((c0 + bits) % 2 ^ 32) bits)) [
      | inl carry ↦ rw carry (ground arith, omega arith, omega arith)
      | inr none' ↦ rw none' (ground arith, omega arith, omega arith)
    ]

-- The context after a message, from the words `s0` on.
pub record Absorbed (s0 : Words) (ctx : Md5Enc) (msg : List ℕ) : Type 0 where
  pub words : ctx.s ≡ (chunks s0 msg).0
  pub held : take (length msg % 64) ctx.b ≡ (chunks s0 msg).1
  pub wide : length ctx.b ≡ 64
  pub counted : ctx.c0 + 2 ^ 32 * ctx.c1 ≡ 8 * length msg % 2 ^ 64
  pub low_word : ctx.c0 < 2 ^ 32
  pub high_word : ctx.c1 < 2 ^ 32

length-paste :
    (b : List ℕ) (n : ℕ) (piece : List ℕ)
    → n + length piece ≤ length b
    → length (paste b n piece) ≡ length b
length-paste b n piece h =
    let a = length-take n b in
    let d = length-drop (n + length piece) b in
    let e = length-append (take n b) (piece ++ drop (n + length piece) b) in
    let f = length-append piece (drop (n + length piece) b) in omega (arith, h)

drop_all : (n : ℕ) (xs : List ℕ) → length xs ≤ n → drop n xs ≡ []
drop_all zero [] h = refl
drop_all zero (x ∷ xs) h = absurd (omega arith)
drop_all (suc n) [] h = refl
drop_all (suc n) (x ∷ xs) h = drop_all n xs (omega arith)

full_block :
    (b : List ℕ) (n : ℕ) (piece held : List ℕ)
    → take n b ≡ held
    → length b ≤ n + length piece
    → paste b n piece ≡ held ++ piece
full_block b n piece held e full =
    rw (e, drop_all (n + length piece) b full) (ap (λ l. held ++ l) (append-nil piece))

-- A paste behind what is held.
take-paste :
    (b : List ℕ) (n : ℕ) (piece held : List ℕ)
    → take n b ≡ held
    → length held ≡ n
    → take (n + length piece) (paste b n piece) ≡ held ++ piece
take-paste b n piece held e len = rw e (
    take-append_ge (n + length piece) (length piece) held _ (omega arith)
    ∙ ap (λ l. held ++ l) (take-append piece (drop (n + length piece) b)))

module _ (s0 : Words) (ctx : Md5Enc) (msg : List ℕ) (state : Absorbed s0 ctx msg) (piece : List ℕ)
    (short : length piece < 2 ^ 32) where
  abbrev n : ℕ
  n = length msg % 64

  at : bit_and (ctx.c0 / 8) 0x3F ≡ n
  at = omega (arith, low_six (ctx.c0 / 8), state.counted, state.low_word)

  abbrev held_part : List ℕ
  held_part = (chunks s0 msg).1

  len_held : length held_part ≡ n
  len_held = length-chunks (length msg) s0 msg (omega arith)

  all : chunks s0 (msg ++ piece) ≡ chunks ctx.s (held_part ++ piece)
  all =
      chunks-append (length msg) s0 msg piece (omega arith)
      ∙ ap (λ s. chunks s (held_part ++ piece)) (sym state.words)

  count :
      let c = md5_count ctx.c0 ctx.c1 (length piece) in
      (c.0 + 2 ^ 32 * c.1 ≡ 8 * length (msg ++ piece) % 2 ^ 64) × (c.0 < 2 ^ 32) × (c.1 < 2 ^ 32)
  count =
      let (sum, low, high) =
        md5_count_lem ctx.c0 ctx.c1 (length piece) state.low_word state.high_word short in
      (omega (arith, sum, state.counted, length-append msg piece), low, high)

  -- The piece leaves the block unfilled.
  md5_update-fits : n + length piece < 64 → Absorbed s0 (md5_update ctx piece) (msg ++ piece)
  unfolding md5_update
  md5_update-fits few =
      let fits : leb (64 - n) (length piece) ≡ false = ground arith in
      let stop =
        all
        ∙ chunks_stop ctx.s (held_part ++ piece)
            (omega (arith, length-append held_part piece, len_held)) in
      let len : length (msg ++ piece) % 64 ≡ n + length piece =
        omega (arith, length-append msg piece) in
      rw (at, fits)
        record {
          words = sym (ap (λ r. r.0) stop);
          held =
              rw (len, ap (λ r. r.1) stop) (take-paste ctx.b n piece held_part state.held len_held);
          wide = length-paste ctx.b n piece (omega (arith, state.wide)) ∙ state.wide;
          counted = count.0;
          low_word = count.1;
          high_word = count.2;
        }

  -- The piece fills the block, and what is left of it may fill more.
  md5_update-fills : 64 ≤ n + length piece → Absorbed s0 (md5_update ctx piece) (msg ++ piece)
  unfolding md5_update
  md5_update-fills many =
      let l = 64 - n in
      let fits : leb l (length piece) ≡ true = ground arith in
      let lt = length-take l piece in
      let ld = length-drop l piece in
      let block : paste ctx.b n (take l piece) ≡ take 64 (held_part ++ piece) =
        full_block ctx.b n (take l piece) held_part state.held (omega (arith, state.wide, lt))
        ∙ sym (take-append_ge 64 l held_part piece (omega (arith, len_held))) in
      let rest : drop 64 (held_part ++ piece) ≡ drop l piece =
        drop-append_ge 64 l held_part piece (omega (arith, len_held)) in
      let run : chunks s0 (msg ++ piece)
          ≡ md5_blocks (length piece) (md5_block ctx.s (paste ctx.b n (take l piece)))
              (drop l piece) =
        all
        ∙ chunks_step ctx.s (held_part ++ piece)
            (omega (arith, length-append held_part piece, len_held))
        ∙ rw (rest, block)
            (blocks_fuel (length (drop l piece)) (length piece) _ (drop l piece) (omega arith)
              (omega arith)) in
      let len = length-chunks (length (msg ++ piece)) s0 (msg ++ piece) (omega arith) in
      let wide_block : length (paste ctx.b n (take l piece)) ≡ 64 =
        length-paste ctx.b n (take l piece) (omega (arith, state.wide, lt)) ∙ state.wide in
      rw (at, fits, ← run)
        record {
          words = refl;
          held = rw (← len) (take-append (chunks s0 (msg ++ piece)).1 _);
          wide =
              length-paste _ 0 (chunks s0 (msg ++ piece)).1 (omega (arith, len, wide_block))
              ∙ wide_block;
          counted = count.0;
          low_word = count.1;
          high_word = count.2;
        }

-- Whatever the sizes of the pieces of a message are, the context holds the words after the whole
-- blocks of the message so far, the bytes behind them, and the number of its bits below 2^64: a piece
-- of fewer than 2^32 bytes takes it from one message to the longer one.
pub md5_update-Absorbed :
    (s0 : Words) (ctx : Md5Enc) (msg : List ℕ)
    → Absorbed s0 ctx msg
    → (piece : List ℕ) → length piece < 2 ^ 32
    → Absorbed s0 (md5_update ctx piece) (msg ++ piece)
md5_update-Absorbed s0 ctx msg state piece short =
    elim (dec_lt (length msg % 64 + length piece) 64) [
      | yes few ↦ md5_update-fits s0 ctx msg state piece short few
      | no many ↦ md5_update-fills s0 ctx msg state piece short (omega arith)
    ]
