-- ===== src/Rtc/Laws.antt =====
-- What is written to the clock is read from it.
use stream_os.Base.{
  ℕ, suc, ◌≡◌, refl, ap, ◌∙◌, fun_ext, arith, bit_or, false, if◌then◌else◌, ◌==◌, ok,
}
use stream_os.Bits.{digit_ext, digit-or, digit-zero}
use stream_os.Io.{IoRange, read_u8, write_u8, verify_offset}
use stream_os.Io.Ports.{Ports}
use stream_os.Rtc.{
  DateTime, get_nmi_mask, in_progress_set, select_reg, read_cmos_reg, write_cmos_reg,
  update_in_progress, finished, update_guarded_op, write_time, read_time, write, read, nmi_enable,
}

or_zero : (r : ℕ) → bit_or 0 r ≡ r
or_zero r = digit_ext _ _ λ i. rw (digit-or, digit-zero) (omega arith)

-- A clock that stands still: what each register holds, that reads of the selected register give it
-- and change nothing, and that a write changes only the selected register.
pub record Cmos (P : Ports) : Type 0 where
  pub value : P.State → ℕ → ℕ
  pub read_value : (s : P.State) (r : ℕ) → (P.input 1 0x71 (P.output 1 0x70 r s)).1 ≡ value s r
  pub read_keeps :
      (s : P.State) (r q : ℕ) → value (P.input 1 0x71 (P.output 1 0x70 r s)).0 q ≡ value s q
  pub write_value :
      (s : P.State) (r v q : ℕ)
      → value (P.output 1 0x71 v (P.output 1 0x70 r s)) q ≡ (if q == r then v else value s q)

same_time :
    {d e : DateTime}
    → d.seconds ≡ e.seconds
    → d.minutes ≡ e.minutes
    → d.hours ≡ e.hours
    → d.weekday ≡ e.weekday
    → d.day ≡ e.day
    → d.month ≡ e.month
    → d.year ≡ e.year
    → d.century ≡ e.century
    → d ≡ e
same_time se mi ho we da mo ye ce = λ i. record {
  seconds = se i;
  minutes = mi i;
  hours = ho i;
  weekday = we i;
  day = da i;
  month = mo i;
  year = ye i;
  century = ce i;
}

-- The time that registers of the given values show.
abbrev pub shown_of : (ℕ → ℕ) → DateTime
shown_of values = record {
  seconds = values 0x00;
  minutes = values 0x02;
  hours = values 0x04;
  weekday = values 0x06;
  day = values 0x07;
  month = values 0x08;
  year = values 0x09;
  century = values 0x32;
}

-- The ports of the clock.
abbrev pub cmos : IoRange
cmos = record { addr = 0x70; length = 2 }

module _ (P : Ports) (C : Cmos P) where
  reads :
      (r : ℕ) (s : P.State)
      → (after : P.State) × (read_cmos_reg P cmos nmi_enable r s ≡ (after, ok (C.value s r)))
        × ((q : ℕ) → C.value after q ≡ C.value s q)
  unfolding read_cmos_reg select_reg get_nmi_mask write_u8 read_u8 verify_offset
  reads r s = rw or_zero (
    _,
    ap (λ v. ((P.input 1 0x71 (P.output 1 0x70 r s)).0, ok v)) (C.read_value s r),
    λ q. C.read_keeps s r q,
  )

  writes :
      (r v : ℕ) (s : P.State)
      → (after : P.State) × (write_cmos_reg P cmos nmi_enable r v s ≡ (after, ok 0))
        × ((q : ℕ) → C.value after q ≡ (if q == r then v else C.value s q))
  unfolding write_cmos_reg select_reg get_nmi_mask write_u8 verify_offset
  writes r v s = rw or_zero (_, refl, λ q. C.write_value s r v q)

  asks :
      (s : P.State)
      → in_progress_set (C.value s 0x0a) ≡ false
      → (after : P.State) × (update_in_progress P cmos nmi_enable s ≡ (after, ok false))
        × ((q : ℕ) → C.value after q ≡ C.value s q)
  unfolding update_in_progress select_reg get_nmi_mask write_u8 read_u8 verify_offset
  asks s idle = (
    _,
    ap (λ b. ((P.input 1 0x71 (P.output 1 0x70 0x0a s)).0, ok b))
        (ap in_progress_set (C.read_value s 0x0a) ∙ idle),
    λ q. C.read_keeps s 0x0a q,
  )

  abbrev shown : P.State → DateTime
  shown s = shown_of (C.value s)

  write_time-shown :
      (date_time : DateTime) (s : P.State)
      → (after : P.State) × (write_time P cmos date_time s ≡ (after, ok tt))
        × (shown after ≡ date_time)
        × (C.value after 0x0a ≡ C.value s 0x0a)
  unfolding write_time
  write_time-shown date_time s0 =
      let (s1, e0, v0) = writes 0x00 date_time.seconds s0 in
      let (s2, e1, v1) = writes 0x02 date_time.minutes s1 in
      let (s3, e2, v2) = writes 0x04 date_time.hours s2 in
      let (s4, e3, v3) = writes 0x06 date_time.weekday s3 in
      let (s5, e4, v4) = writes 0x07 date_time.day s4 in
      let (s6, e5, v5) = writes 0x08 date_time.month s5 in
      let (s7, e6, v6) = writes 0x09 date_time.year s6 in
      let (s8, e7, v7) = writes 0x32 date_time.century s7 in
      rw (e0, e1, e2, e3, e4, e5, e6, e7)
        (
          s8,
          refl,
          same_time (v7 0x00 ∙ v6 0x00 ∙ v5 0x00 ∙ v4 0x00 ∙ v3 0x00 ∙ v2 0x00 ∙ v1 0x00 ∙ v0 0x00)
              (v7 0x02 ∙ v6 0x02 ∙ v5 0x02 ∙ v4 0x02 ∙ v3 0x02 ∙ v2 0x02 ∙ v1 0x02)
              (v7 0x04 ∙ v6 0x04 ∙ v5 0x04 ∙ v4 0x04 ∙ v3 0x04 ∙ v2 0x04)
              (v7 0x06 ∙ v6 0x06 ∙ v5 0x06 ∙ v4 0x06 ∙ v3 0x06)
              (v7 0x07 ∙ v6 0x07 ∙ v5 0x07 ∙ v4 0x07) (v7 0x08 ∙ v6 0x08 ∙ v5 0x08)
              (v7 0x09 ∙ v6 0x09) (v7 0x32),
          v7 0x0a ∙ v6 0x0a ∙ v5 0x0a ∙ v4 0x0a ∙ v3 0x0a ∙ v2 0x0a ∙ v1 0x0a ∙ v0 0x0a,
        )

  read_time-shown :
      (s : P.State)
      → (after : P.State) × (read_time P cmos s ≡ (after, ok (shown s)))
        × ((q : ℕ) → C.value after q ≡ C.value s q)
  unfolding read_time
  read_time-shown s0 =
      let (s1, e0, v0) = reads 0x00 s0 in
      let (s2, e1, v1) = reads 0x02 s1 in
      let (s3, e2, v2) = reads 0x04 s2 in
      let (s4, e3, v3) = reads 0x06 s3 in
      let (s5, e4, v4) = reads 0x07 s4 in
      let (s6, e5, v5) = reads 0x08 s5 in
      let (s7, e6, v6) = reads 0x09 s6 in
      let (s8, e7, v7) = reads 0x32 s7 in
      rw (e0, e1, e2, e3, e4, e5, e6, e7)
        (
          s8,
          ap (λ d. (s8, ok d))
              (same_time (refl) (v0 0x02) (v1 0x04 ∙ v0 0x04) (v2 0x06 ∙ v1 0x06 ∙ v0 0x06)
                (v3 0x07 ∙ v2 0x07 ∙ v1 0x07 ∙ v0 0x07)
                (v4 0x08 ∙ v3 0x08 ∙ v2 0x08 ∙ v1 0x08 ∙ v0 0x08)
                (v5 0x09 ∙ v4 0x09 ∙ v3 0x09 ∙ v2 0x09 ∙ v1 0x09 ∙ v0 0x09)
                (v6 0x32 ∙ v5 0x32 ∙ v4 0x32 ∙ v3 0x32 ∙ v2 0x32 ∙ v1 0x32 ∙ v0 0x32)),
          λ q. v7 q ∙ v6 q ∙ v5 q ∙ v4 q ∙ v3 q ∙ v2 q ∙ v1 q ∙ v0 q,
        )

  -- On a clock that stands still, with no update in progress, a write of a time and then a read of it
  -- both end in their first turn, without an error, and the read gives the time that was written.
  pub write-read :
      (date_time : DateTime) (turns more : ℕ) (s : P.State)
      → in_progress_set (C.value s 0x0a) ≡ false
      → (written : P.State) × (last : P.State) × (write P cmos date_time (suc turns) s
          ≡ finished written (ok tt))
        × (read P cmos (suc more) written ≡ finished last (ok date_time))
  unfolding write read update_guarded_op
  write-read date_time turns more s0 idle =
      let (s1, e1, v1) = asks s0 idle in
      let (s2, e2, w2, a2) = write_time-shown date_time s1 in
      let idle2 : in_progress_set (C.value s2 0x0a) ≡ false =
        ap in_progress_set (a2 ∙ v1 0x0a) ∙ idle in
      let (s3, e3, v3) = asks s2 idle2 in
      let idle3 : in_progress_set (C.value s3 0x0a) ≡ false =
        ap in_progress_set (v3 0x0a) ∙ idle2 in
      let (s4, e4, v4) = asks s3 idle3 in
      let (s5, e5, v5) = read_time-shown s4 in
      let idle5 : in_progress_set (C.value s5 0x0a) ≡ false =
        ap in_progress_set (v5 0x0a ∙ v4 0x0a) ∙ idle3 in
      let (s6, e6, v6) = asks s5 idle5 in
      (
        s3,
        s6,
        rw (e1, e2, e3) refl,
        rw (e4, e5, e6)
            (ap (λ d. finished s6 (ok d)) (ap shown_of (fun_ext λ q. v4 q ∙ v3 q) ∙ w2)),
      )
