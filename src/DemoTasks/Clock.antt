-- ===== src/DemoTasks/Clock.antt =====
-- What the tasks of src/src/classes/tasks.class.h show.
use shiro.Devices.Vga.{set_color}
use shiro.Text.Numbers.{int_to_str, decimal, length-int_to_str_digits, length-int_to_str}
use shiro.Shell.{Shell, put_text, header_color}
use shiro.Shell.Bars.{render_status}
use shiro.Shell.View.{put_text-cell, update_screen-view}
use shiro.Shell.Rows.{render_status-row, status_row}
use shiro.DemoTasks.{
  u32_to_2digit, clock_text, count, u32_to_str, uptime_part, heap_part, pages_part, status_text,
  bar, task_statusbar, task_clock,
}
use shiro.Scheduler.{Scheduler, Task}
use shiro.Heap.{Heap, heap_size}
use shiro.Pmm.{Pmm, max_pages}
use shiro.Base.{
  ℕ, ◌+◌, ◌-◌, ◌*◌, ◌/◌, ◌%◌, ◌<◌, ◌≤◌, ◌≡◌, refl, ◌∙◌, true, false, ◌&&◌, List, [], ◌∷◌, ◌++◌,
  length, length-append, get_or, leb, ltb, if◌then◌else◌, add32, codes, arith,
}

-- The hours modulo 100, the minutes and the seconds of the clock make up the time modulo 100 hours, and
-- each pair of digits stands for its number.
pub clock_text-time :
    (ticks : ℕ)
    → (h : ℕ) × (m : ℕ) × (s : ℕ) × (clock_text ticks
        ≡ u32_to_2digit h ++ 58 ∷ (u32_to_2digit m ++ 58 ∷ u32_to_2digit s))
      × (decimal 0 (u32_to_2digit h) ≡ h)
      × (decimal 0 (u32_to_2digit m) ≡ m)
      × (decimal 0 (u32_to_2digit s) ≡ s)
      × (m < 60)
      × (s < 60)
      × (h * 3600 + m * 60 + s ≡ ticks / 100 % 360000)
unfolding clock_text u32_to_2digit
clock_text-time ticks =
    let t = ticks / 100 in
    let e1 : t / 3600 % 100 / 10 % 10 ≡ t / 3600 / 10 % 10 = omega arith in
    let e2 : t / 3600 % 100 % 10 ≡ t / 3600 % 10 = omega arith in
    (
      t / 3600 % 100,
      t / 60 % 60,
      t % 60,
      rw (e1, e2) refl,
      omega arith,
      omega arith,
      omega arith,
      omega arith,
      omega arith,
      omega arith,
    )

count-length : (ts : List Task) → count ts ≤ length ts
unfolding count
count-length [] = omega arith
count-length (t ∷ ts) = ground (arith, count-length ts)

length-number :
    (n v : ℕ) (buf : List ℕ)
    → length (int_to_str v (80 - length buf)) ≤ n
    → length (u32_to_str v buf) ≤ length buf + n
length-number n v buf h = omega (arith, h, length-append buf (int_to_str v (80 - length buf)))

length-uptime_part : (ticks : ℕ) → length (uptime_part ticks) ≡ 12
unfolding uptime_part clock_text u32_to_2digit
length-uptime_part ticks = refl

-- The bounds that the heap, the page allocator and the table of tasks keep.
pub record IsBounded (h : Heap) (p : Pmm) (s : Scheduler) : Type 0 where
  pub used : h.bytes_used ≤ heap_size
  pub total : add32 h.bytes_used h.bytes_free ≤ heap_size
  pub pages : p.free_pages ≤ max_pages
  pub slots : length s.tasks ≤ 8

length-heap_part :
    (h : Heap) (buf : List ℕ)
    → h.bytes_used ≤ heap_size
    → add32 h.bytes_used h.bytes_free ≤ heap_size
    → length (heap_part h buf) ≤ length buf + 17
unfolding heap_part
length-heap_part h buf used total =
    let a = buf ++ (bar ++ codes "mem ") in
    let k = h.bytes_used / 1024 in
    let b = u32_to_str k a in
    let mib = add32 h.bytes_used h.bytes_free / (1024 * 1024) in
    let c = u32_to_str mib (b ++ codes "K/") in
    let la = length-append buf (bar ++ codes "mem ") in
    let lb =
      length-number 4 k a
        (length-int_to_str_digits 4 k (80 - length a) (omega (arith, used)) (omega arith)) in
    let lk = length-append b (codes "K/") in
    let lc = length-number 1 mib (b ++ codes "K/") (
      length-int_to_str_digits 1 mib (80 - length (b ++ codes "K/")) (omega (arith, total))
        (omega arith)) in
    omega (arith, la, lb, lk, lc, length-append c (codes "M"))

length-pages_part :
    (p : Pmm) (buf : List ℕ)
    → p.free_pages ≤ max_pages
    → length (pages_part p buf) ≤ length buf + 19
unfolding pages_part
length-pages_part p buf free =
    let a = buf ++ (bar ++ codes "pmm ") in
    let v = p.free_pages / 256 in
    let b = u32_to_str v a in
    let lb =
      length-number 4 v a
        (length-int_to_str_digits 4 v (80 - length a) (omega (arith, free)) (omega arith)) in
    omega (arith, lb, length-append buf (bar ++ codes "pmm "), length-append b (codes "M free"))

-- While the heap, the page allocator and the table of tasks keep their bounds, the text of the status
-- bar has at most 79 characters at any tick: with its NUL it fits in the buffer of 80 bytes, although
-- most of it is written without a test.
pub status_text-fits :
    (h : Heap) (p : Pmm) (s : Scheduler) (ticks : ℕ)
    → IsBounded h p s
    → length (status_text h p s ticks) ≤ 79
unfolding status_text
status_text-fits h p s ticks b =
    let up = uptime_part ticks in
    let heap = heap_part h up in
    let paged = pages_part p heap in
    let n = count s.tasks in
    let a = paged ++ (bar ++ codes "tasks ") in
    let tasks = u32_to_str n a in
    let t = tasks ++ (bar ++ codes "ticks ") in
    let ln = length-number 1 n a (
      length-int_to_str_digits 1 n (80 - length a) (omega (arith, count-length s.tasks, b.slots))
        (omega arith)) in
    let lh = length-heap_part h up b.used b.total in
    let lp = length-pages_part p heap b.pages in
    let before : length t ≤ 71 = omega (
      arith,
      length-uptime_part ticks,
      lh,
      lp,
      length-append paged (bar ++ codes "tasks "),
      ln,
      length-append tasks (bar ++ codes "ticks "),
    ) in
    omega (
      arith,
      before,
      length-append t (int_to_str ticks (80 - length t)),
      length-int_to_str ticks (80 - length t),
    )

-- `HH:MM:SS`, of the hours modulo 100, the minutes and the seconds.
abbrev pub time_digits : ℕ → ℕ → ℕ → List ℕ
time_digits h m s =
    (48 + h / 10)
    ∷ (48 + h % 10)
    ∷ 58
    ∷ (48 + m / 10)
    ∷ (48 + m % 10)
    ∷ 58
    ∷ (48 + s / 10)
    ∷ (48 + s % 10)
    ∷ []

clock_text-digits :
    (h m s : ℕ)
    → h < 100
    → m < 60
    → s < 60
    → (ticks : ℕ) → ticks / 100 % 360000 ≡ h * 3600 + m * 60 + s
    → clock_text ticks ≡ time_digits h m s
unfolding clock_text u32_to_2digit
clock_text-digits h m s lh lm ls ticks e =
    let t = ticks / 100 in
    let h1 : t / 3600 / 10 % 10 ≡ h / 10 = omega arith in
    let h0 : t / 3600 % 10 ≡ h % 10 = omega arith in
    let m1 : t / 60 % 60 / 10 % 10 ≡ m / 10 = omega arith in
    let m0 : t / 60 % 60 % 10 ≡ m % 10 = omega arith in
    let s1 : t % 60 / 10 % 10 ≡ s / 10 = omega arith in
    let s0 : t % 60 % 10 ≡ s % 10 = omega arith in rw (h1, h0, m1, m0, s1, s0) refl

-- At a tick that is a time `h`, `m`, `s` after the start, modulo 100 hours: after a round of the status
-- task row 1 of the screen shows the first 78 characters of its text, a blank before them and blanks
-- behind, and after a round of the clock columns 70 to 77 of row 0 show the digits of the time and the
-- others what the header had.
pub task_rounds-show :
    (size ticks x hours minutes seconds : ℕ) (h : Heap) (p : Pmm) (sched : Scheduler) (s : Shell)
    → x < 80
    → hours < 100
    → minutes < 60
    → seconds < 60
    → ticks / 100 % 360000 ≡ hours * 3600 + minutes * 60 + seconds
    → ((task_statusbar size h p sched ticks s).screen (80 + x)
        ≡ status_row (status_text h p sched ticks) x)
      × ((task_clock size ticks s).screen x ≡ (
          if leb 70 x && ltb x 78
          then set_color (get_or (time_digits hours minutes seconds) (x - 70) 0) header_color
          else s.terminal_screen_header x))
unfolding task_statusbar task_clock
task_rounds-show size ticks x hours minutes seconds h p sched s low lh lm ls e =
    let time = clock_text-digits hours minutes seconds lh lm ls ticks e in
    let text = status_text h p sched ticks in
    let r = render_status text s in
    let c = record s {
      terminal_screen_header =
          put_text header_color 70 (time_digits hours minutes seconds) s.terminal_screen_header;
    } in
    let v = update_screen-view size r (80 + x) in
    let w = update_screen-view size c x in
    let row = render_status-row text s x low in
    let cells =
      put_text-cell header_color 70 (time_digits hours minutes seconds) s.terminal_screen_header
        x in
    let a : ltb (80 + x) 2000 ≡ true = ground arith in
    let a1 : ltb (80 + x) 80 ≡ false = ground arith in
    let a2 : ltb (80 + x) 160 ≡ true = ground arith in
    let d : ltb x 2000 ≡ true = ground arith in
    let d1 : ltb x 80 ≡ true = ground arith in
    (v ∙ rw (a, a1, a2) row, rw time (w ∙ rw (d, d1) cells))
