-- ===== src/DemoTasks.antt =====
-- src/src/classes/tasks.class.h: the background tasks that paint the header and the status bar. Each
-- function is one round of the task's loop, between two sleeps.
pub mod Clock
mod Tests
use shiro.Devices.Vga.{set_color}
use shiro.Screen.{Cells, put}
use shiro.Text.Numbers.{int_to_str}
use shiro.Shell.{Shell, header_color, put_text, update_screen}
use shiro.Shell.Bars.{render_status}
use shiro.Scheduler.{Scheduler, Task, is_unused}
use shiro.Timer.{tick_hz}
use shiro.Heap.{Heap}
use shiro.Pmm.{Pmm}
use shiro.Base.{
  ℕ, zero, suc, ◌+◌, ◌-◌, ◌*◌, ◌/◌, ◌%◌, Bool, true, false, not, List, [], ◌∷◌, ◌++◌, length,
  get_or, if◌then◌else◌, add32, codes,
}

-- `u32_to_2digit`.
unfoldable pub u32_to_2digit : ℕ → List ℕ
u32_to_2digit v = (48 + v / 10 % 10) ∷ (48 + v % 10) ∷ []

-- The time as `HH:MM:SS`.
unfoldable pub clock_text : ℕ → List ℕ
clock_text ticks =
    let total_sec = ticks / tick_hz in
    u32_to_2digit (total_sec / 3600)
    ++ 58 ∷ (u32_to_2digit (total_sec / 60 % 60) ++ 58 ∷ u32_to_2digit (total_sec % 60))

-- A text painted in the header from a column on.
abbrev pub paint_header : ℕ → ℕ → List ℕ → Shell → Shell
paint_header size col text s =
    update_screen size (record s {
      terminal_screen_header = put_text header_color col text s.terminal_screen_header;
    })

-- `task_spinner`, in its round `i`, with the characters `|`, `/`, `-` and `\`.
abbrev pub frames : List ℕ
frames = 124 ∷ 47 ∷ 45 ∷ 92 ∷ []

unfoldable pub task_spinner : ℕ → ℕ → Shell → Shell
task_spinner size i s = paint_header size 66 (get_or frames (i % 4) 0 ∷ []) s

-- `task_heartbeat`.
unfoldable pub task_heartbeat : ℕ → Bool → Shell → Shell
task_heartbeat size on s = paint_header size 64 ((if on then 3 else 32) ∷ []) s

-- `task_clock`.
unfoldable pub task_clock : ℕ → ℕ → Shell → Shell
task_clock size ticks s = paint_header size 70 (clock_text ticks) s

-- `Scheduler::Count`.
unfoldable pub count : List Task → ℕ
count [] = 0
count (t ∷ ts) = let n = count ts in if is_unused t.state then n else suc n

-- `j += u32_to_str(v, &buf[j], 80 - j)`; the routine has the code of `IntToStr`.
abbrev pub u32_to_str : ℕ → List ℕ → List ℕ
u32_to_str v buf = buf ++ int_to_str v (80 - length buf)

-- The mark between two parts of the status bar.
abbrev pub bar : List ℕ
bar = 32 ∷ 32 ∷ 0xB3 ∷ 32 ∷ 32 ∷ []

-- The parts of the text of `task_statusbar`. The characters between the numbers are written without a
-- test of the buffer's end.
unfoldable pub uptime_part : ℕ → List ℕ
uptime_part ticks = codes " up " ++ clock_text ticks

unfoldable pub heap_part : Heap → List ℕ → List ℕ
heap_part h buf =
    let used = u32_to_str (h.bytes_used / 1024) (buf ++ (bar ++ codes "mem ")) in
    u32_to_str (add32 h.bytes_used h.bytes_free / (1024 * 1024)) (used ++ codes "K/") ++ codes "M"

unfoldable pub pages_part : Pmm → List ℕ → List ℕ
pages_part p buf = u32_to_str (p.free_pages / 256) (buf ++ (bar ++ codes "pmm ")) ++ codes "M free"

unfoldable pub status_text : Heap → Pmm → Scheduler → ℕ → List ℕ
status_text h p s ticks =
    let paged = pages_part p (heap_part h (uptime_part ticks)) in
    let tasks = u32_to_str (count s.tasks) (paged ++ (bar ++ codes "tasks ")) in
    u32_to_str ticks (tasks ++ (bar ++ codes "ticks "))

-- `task_statusbar`.
unfoldable pub task_statusbar : ℕ → Heap → Pmm → Scheduler → ℕ → Shell → Shell
task_statusbar size h p sched ticks s =
    update_screen size (render_status (status_text h p sched ticks) s)
