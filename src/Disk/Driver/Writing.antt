-- ===== src/Disk/Driver/Writing.antt =====
-- `write_disk` of include/comm/disk.h: the words that the drive is given.
use weg_os.Base.{
  ltb-true, ltb-false, true, ◌∷◌, List, ℕ, zero, suc, ◌+◌, ◌-◌, ◌*◌, ◌^◌, ◌<◌, ◌≡◌, ◌≢◌, refl, sym,
  subst, ap, ◌∙◌, arith, some, ◌==◌, ==_of_ne, if◌then◌else◌, ltb, Array,
}
use weg_os.Base.Bytes.{IsBytes}
use native.Mathlib.Decide.{dec_lt}
use weg_os.Disk.Driver.{command, wait_loop, write_words, write_sectors, write_disk, outw}
use weg_os.Disk.Driver.Laws.{written, latest, lba, count_of, command-lba}
use weg_os.Interrupt.{Ports, outb}

abbrev pub word_at : Array ℕ → ℕ → ℕ
word_at buf i = buf i + 2 ^ 8 * buf (i + 1)

-- What so many words to the data port, from a position of the buffer on, leave of what was written: the last
-- words are those of the buffer, and the other ports are as before.
abbrev Sent : ℕ → Ports → Array ℕ → ℕ → Ports → Type 0
Sent count ports buf position ports' =
    ((n : ℕ)
      → written ports'.outputs 0x1f0 n ≡ (
          if ltb n count
          then word_at buf (position + 2 * (count - 1 - n))
          else written ports.outputs 0x1f0 (n - count)))
    × ((port n : ℕ) → port ≢ 0x1f0 → written ports'.outputs port n ≡ written ports.outputs port n)

-- The same for all writes in their order.
abbrev Logged : ℕ → Ports → Array ℕ → ℕ → Ports → Type 0
Logged count ports buf position ports' =
    (n : ℕ)
    → latest ports'.outputs n ≡ (
        if ltb n count
        then (0x1f0, word_at buf (position + 2 * (count - 1 - n)))
        else latest ports.outputs (n - count))

module _ (buf : Array ℕ) (small : IsBytes buf) where
  written-outw :
      (ports : Ports) (position n : ℕ)
      → written (outw ports 0x1f0 (word_at buf position)).outputs 0x1f0 n
        ≡ (if n == 0 then word_at buf position else written ports.outputs 0x1f0 (n - 1))
  unfolding written
  written-outw ports position zero = omega (arith, small position, small (position + 1))
  written-outw ports position (suc n) =
      ap (written ports.outputs 0x1f0) {y = suc n - 1} (omega arith) ∙ ground arith

  written-outw_other :
      (ports : Ports) (value port n : ℕ)
      → port ≢ 0x1f0
      → written (outw ports 0x1f0 value).outputs port n ≡ written ports.outputs port n
  unfolding written
  written-outw_other ports value port zero h = rw (==_of_ne 0x1f0 port (λ e. h (sym e))) refl
  written-outw_other ports value port (suc n) h = rw (==_of_ne 0x1f0 port (λ e. h (sym e))) refl

  write_words-none : (ports : Ports) (position : ℕ) → Sent 0 ports buf position ports
  write_words-none ports position = (
    λ n. ap (written ports.outputs 0x1f0) {y = n - 0} (omega arith) ∙ ground arith,
    λ port n h. refl,
  )

  moved_on :
      (count : ℕ) (ports : Ports) (position n : ℕ)
      → (if ltb n count
          then word_at buf (position + 2 + 2 * (count - 1 - n))
          else written (outw ports 0x1f0 (word_at buf position)).outputs 0x1f0 (n - count))
        ≡ (if ltb n (suc count)
            then word_at buf (position + 2 * (suc count - 1 - n))
            else written ports.outputs 0x1f0 (n - suc count))
  moved_on count ports position n = elim (dec_lt n count) [
    | yes later ↦
        let e : word_at buf (position + 2 + 2 * (count - 1 - n))
            ≡ word_at buf (position + 2 * (suc count - 1 - n)) =
          ap (word_at buf) (omega arith) in
        ground (arith, e)
    | no rest ↦ elim (dec_lt count n) [
      | yes earlier ↦
          let e : written ports.outputs 0x1f0 (n - count - 1)
              ≡ written ports.outputs 0x1f0 (n - suc count) =
            ap (written ports.outputs 0x1f0) (omega arith) in
          ground (arith, written-outw ports position (n - count), e)
      | no here ↦
          let e : word_at buf position ≡ word_at buf (position + 2 * (suc count - 1 - n)) =
            ap (word_at buf) (omega arith) in
          ground (arith, written-outw ports position (n - count), e)
    ]
  ]

  -- A word goes out as it is.
  outw-latest :
      (ports : Ports) (position n : ℕ)
      → latest (outw ports 0x1f0 (word_at buf position)).outputs n
        ≡ (if n == 0 then (0x1f0, word_at buf position) else latest ports.outputs (n - 1))
  unfolding latest
  outw-latest ports position zero =
      ap (λ (w : ℕ). (0x1f0, w)) (omega (arith, small position, small (position + 1)))
  outw-latest ports position (suc n) =
      rw (==_of_ne (suc n) 0 (λ e. absurd (omega arith)))
        (ap (latest ports.outputs) {y = suc n - 1} (omega arith))

  latest_on :
      (count : ℕ) (ports : Ports) (position n : ℕ)
      → (if ltb n count
          then (0x1f0, word_at buf (position + 2 + 2 * (count - 1 - n)))
          else latest (outw ports 0x1f0 (word_at buf position)).outputs (n - count))
        ≡ (if ltb n (suc count)
            then (0x1f0, word_at buf (position + 2 * (suc count - 1 - n)))
            else latest ports.outputs (n - suc count))
  latest_on count ports position n = elim (dec_lt n count) [
    | yes later ↦
        rw (ltb-true later, ltb-true {m = n} {n = suc count} (omega arith))
          (ap (λ (i : ℕ). (0x1f0, word_at buf i)) (omega arith))
    | no rest ↦ elim (dec_lt count n) [
      | yes earlier ↦
          rw
            (
              ltb-false {m = n} {n = count} (omega arith),
              ltb-false {m = n} {n = suc count} (omega arith),
            )
            (outw-latest ports position (n - count)
              ∙ rw (==_of_ne (n - count) 0 (λ e. absurd (omega arith)))
                  (ap (latest ports.outputs) (omega arith)))
      | no here ↦
          rw
            (
              ltb-false {m = n} {n = count} (omega arith),
              ltb-true {m = n} {n = suc count} (omega arith),
            )
            (outw-latest ports position (n - count)
              ∙ rw (zero_left here rest) (ap (λ (i : ℕ). (0x1f0, word_at buf i)) (omega arith)))
    ]
  ]
    where
      zero_left : ¬ (count < n) → ¬ (n < count) → (n - count == 0) ≡ true
      zero_left here rest = ground arith

  write_words-Sent :
      (count : ℕ) (ports : Ports) (position : ℕ)
      → Sent count ports buf position (write_words count ports buf position)
  unfolding write_words
  write_words-Sent zero ports position = write_words-none ports position
  write_words-Sent (suc count) ports position =
      let (rest, others) =
        write_words-Sent count (outw ports 0x1f0 (word_at buf position)) (position + 2) in
      (
        λ n. rest n ∙ moved_on count ports position n,
        λ port n h. others port n h ∙ written-outw_other ports (word_at buf position) port n h,
      )

  Logged-none : (ports : Ports) (position : ℕ) → Logged 0 ports buf position ports
  Logged-none ports position n =
      ap (latest ports.outputs) {y = n - 0} (omega arith)
      ∙ sym (rw (ltb-false {m = n} {n = 0} (omega arith)) refl)

  -- All writes in their order: the words are the last ones.
  write_words-Logged :
      (count : ℕ) (ports : Ports) (position : ℕ)
      → Logged count ports buf position (write_words count ports buf position)
  unfolding write_words
  write_words-Logged zero ports position n = Logged-none ports position n
  write_words-Logged (suc count) ports position n =
      write_words-Logged count (outw ports 0x1f0 (word_at buf position)) (position + 2) n
      ∙ latest_on count ports position n

  Logged-after :
      (m n : ℕ) (ports ports1 ports2 : Ports) (position : ℕ)
      → Logged m ports buf position ports1
      → Logged n ports1 buf (position + 2 * m) ports2
      → Logged (m + n) ports buf position ports2
  Logged-after m n ports ports1 ports2 position first second k = second k ∙ elim (dec_lt k n) [
    | yes later ↦
        rw (ltb-true later, ltb-true {m = k} {n = m + n} (omega arith))
          (ap (λ (i : ℕ). (0x1f0, word_at buf i)) (omega arith))
    | no rest ↦ elim (dec_lt (k - n) m) [
      | yes inside ↦
          rw (ltb-false {m = k} {n = n} (omega arith), ltb-true {m = k} {n = m + n} (omega arith))
            (first (k - n)
              ∙ rw (ltb-true inside) (ap (λ (i : ℕ). (0x1f0, word_at buf i)) (omega arith)))
      | no before ↦
          rw (ltb-false {m = k} {n = n} (omega arith), ltb-false {m = k} {n = m + n} (omega arith))
            (first (k - n)
              ∙ rw (ltb-false {m = k - n} {n = m} (omega arith))
                  (ap (latest ports.outputs) (omega arith)))
    ]
  ]

  -- One run of words after another.
  Sent-after :
      (m n : ℕ) (ports ports1 ports2 : Ports) (position : ℕ)
      → Sent m ports buf position ports1
      → Sent n ports1 buf (position + 2 * m) ports2
      → Sent (m + n) ports buf position ports2
  Sent-after m n ports ports1 ports2 position (first, others1) (second, others2) = (
    λ k. second k ∙ elim (dec_lt k n) [
      | yes later ↦
          let e : word_at buf (position + 2 * m + 2 * (n - 1 - k))
              ≡ word_at buf (position + 2 * (m + n - 1 - k)) =
            ap (word_at buf) (omega arith) in
          ground (arith, e)
      | no rest ↦
          let e : word_at buf (position + 2 * (m - 1 - (k - n)))
              ≡ word_at buf (position + 2 * (m + n - 1 - k)) =
            ap (word_at buf) (omega arith) in
          let e' : written ports.outputs 0x1f0 (k - n - m)
              ≡ written ports.outputs 0x1f0 (k - (m + n)) =
            ap (written ports.outputs 0x1f0) (omega arith) in
          ground (arith, first (k - n), e, e')
    ],
    λ port k h. others2 port k h ∙ others1 port k h,
  )

  write_sectors-Sent :
      (sector_count fuel : ℕ) (status : ℕ → ℕ) (t : ℕ) (ports : Ports) (position : ℕ)
      → ((t : ℕ) → (t' : ℕ) × (wait_loop fuel status t ≡ some t'))
      → (ports' : Ports) × (write_sectors sector_count fuel status t ports buf position
          ≡ some ports')
        × Sent (256 * sector_count) ports buf position ports'
        × Logged (256 * sector_count) ports buf position ports'
  unfolding write_sectors
  write_sectors-Sent zero fuel status t ports position ready =
      (ports, refl, write_words-none ports position, Logged-none ports position)
  write_sectors-Sent (suc sector_count) fuel status t ports position ready =
      let (t', waited) = ready t in
      let ports1 = write_words 256 ports buf position in
      let (ports', run, sent, logged) =
        write_sectors-Sent sector_count fuel status t' ports1 (position + 512) ready in
      (
        ports',
        rw waited run,
        subst (λ (n : ℕ). Sent n ports buf position ports') (omega arith)
            (Sent-after 256 (256 * sector_count) ports ports1 ports' position
              (write_words-Sent 256 ports position) sent),
        subst (λ (n : ℕ). Logged n ports buf position ports') (omega arith)
            (Logged-after 256 (256 * sector_count) ports ports1 ports' position
              (write_words-Logged 256 ports position) logged),
      )

-- The write in front of the last one.
latest-next :
    (w : ℕ × ℕ) (rest : List (ℕ × ℕ)) (n m : ℕ) → n ≡ suc m → latest (w ∷ rest) n ≡ latest rest m
unfolding latest
latest-next w rest zero m e = absurd (omega arith)
latest-next w rest (suc n) m e = ap (latest rest) (omega arith)

-- With a drive that becomes ready within the fuel for each sector, `write_disk` asks the first drive for the
-- sectors to be written from the given one on, as many as are given, right after the command sends the
-- words of the buffer in their order, and right after them has the drive flush its cache, and no more.
pub write_disk-words :
    (fuel : ℕ) (status : ℕ → ℕ) (ports : Ports) (sector sector_count : ℕ) (buf : Array ℕ)
    → IsBytes buf
    → sector < 2 ^ 32
    → sector_count < 2 ^ 16
    → ((t : ℕ) → (t' : ℕ) × (wait_loop fuel status t ≡ some t'))
    → (ports' : Ports) × (write_disk fuel status ports sector sector_count buf ≡ some ports')
      × (lba ports' ≡ sector)
      × (count_of ports' ≡ sector_count)
      × (written ports'.outputs 0x1f6 0 ≡ 0xe0)
      × (latest ports'.outputs 0 ≡ (0x1f7, 0xe7))
      × ((k : ℕ)
          → k < 256 * sector_count
          → latest ports'.outputs (256 * sector_count - k)
            ≡ (0x1f0, buf (2 * k) + 2 ^ 8 * buf (2 * k + 1)))
      × (latest ports'.outputs (256 * sector_count + 1) ≡ (0x1f7, 0x34))
unfolding write_disk written latest
write_disk-words fuel status ports sector sector_count buf small s c ready =
    let p = command ports sector sector_count 0x34 in
    let (same_sector, same_count, code) = command-lba ports sector sector_count 0x34 s c in
    let (ports1, run, (words, others), logged) =
      write_sectors-Sent buf small sector_count fuel status 0 p 0 ready in
    let whole = 256 * sector_count in
    (
      outb ports1 0x1f7 0xe7,
      rw run refl,
      omega (
        arith,
        same_sector,
        others 0x1f3 0 (λ e. absurd (omega arith)),
        others 0x1f4 0 (λ e. absurd (omega arith)),
        others 0x1f5 0 (λ e. absurd (omega arith)),
        others 0x1f3 1 (λ e. absurd (omega arith)),
        others 0x1f4 1 (λ e. absurd (omega arith)),
        others 0x1f5 1 (λ e. absurd (omega arith)),
      ),
      omega (
        arith,
        same_count,
        others 0x1f2 0 (λ e. absurd (omega arith)),
        others 0x1f2 1 (λ e. absurd (omega arith)),
      ),
      others 0x1f6 0 (λ e. absurd (omega arith)),
      refl,
      λ k h.
          latest-next (0x1f7, 0xe7) ports1.outputs (whole - k) (whole - 1 - k) (omega arith)
          ∙ logged (whole - 1 - k)
          ∙ rw (ltb-true {m = whole - 1 - k} {n = whole} (omega arith))
              (ap (λ (i : ℕ). (0x1f0, word_at buf i)) (omega arith)),
      latest-next (0x1f7, 0xe7) ports1.outputs (whole + 1) whole (omega arith)
          ∙ logged whole
          ∙ rw (ltb-false {m = whole} {n = whole} (omega arith))
              (ap (latest p.outputs) {y = 0} (omega arith)),
    )
