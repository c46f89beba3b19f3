-- ===== src/DemoTasks/Tests.antt =====
-- A round of the tasks of src/src/classes/tasks.class.h.
use shiro.DemoTasks.{status_text, clock_text, task_clock, task_statusbar, u32_to_2digit}
use shiro.DemoTasks.Clock.{IsBounded, status_text-fits, time_digits, task_rounds-show}
use shiro.Devices.Vga.{set_color}
use shiro.Shell.{Shell, header_color}
use shiro.Shell.Rows.{status_row}
use shiro.Scheduler.{Scheduler}
use shiro.Heap.{Heap}
use shiro.Pmm.{reserved}
use shiro.Base.{
  ◌+◌, ◌-◌, ◌≤◌, ◌≡◌, refl, false, [], ◌&&◌, length, get_or, leb, ltb, if◌then◌else◌, codes, arith,
}

abbrev heap : Heap
heap = record {
  first = 0x200000;
  base = 0x200000;
  end = 0x600000;
  bytes_used = 0;
  bytes_free = 0x3FFFF0;
  alloc_count = 0;
  free_count = 0;
  ready = false;
  mem = λ a. record { magic = 0; size = 0; used = 0; next = 0 };
}

abbrev no_tasks : Scheduler
no_tasks = record { tasks = []; current = 0; spawned_count = 0; ready = false; in_preempt = false }

abbrev shell : Shell
shell = record {
  screen = λ j. 0;
  terminal_screen_header = λ j. 0;
  terminal_screen_status = λ j. 0;
  terminal_screen_footer = λ j. 0;
  terminal_screens = λ i j. 0;
  current_terminal = 1;
  header_current_x = 0;
  content_current_x = 0;
  footer_current_x = 0;
  cursor_x = 0;
}

an_hour : clock_text 372700 ≡ codes "01:02:07"
unfolding clock_text u32_to_2digit
an_hour = refl

bounded : IsBounded heap reserved no_tasks
bounded = record {
  used = omega arith;
  total = omega arith;
  pages = omega arith;
  slots = omega arith;
}

status_text-fits_example : length (status_text heap reserved no_tasks 4711) ≤ 79
status_text-fits_example = status_text-fits heap reserved no_tasks 4711 bounded

task_rounds-show_example :
    ((task_statusbar 0 heap reserved no_tasks 4711 shell).screen (80 + 5)
      ≡ status_row (status_text heap reserved no_tasks 4711) 5)
    × ((task_clock 0 4711 shell).screen 5 ≡ (
        if leb 70 5 && ltb 5 78
        then set_color (get_or (time_digits 0 0 47) (5 - 70) 0) header_color
        else 0))
task_rounds-show_example =
    task_rounds-show 0 4711 5 0 0 47 heap reserved no_tasks shell (omega arith) (omega arith)
      (omega arith) (omega arith) refl
