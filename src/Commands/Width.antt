-- ===== src/Commands/Width.antt =====
-- How wide the lines of src/src/classes/commands.class.h are. The screen has 80 columns, and the
-- buffers of the commands have 80 bytes.
use shiro.CString.{c_string}
use shiro.Text.Box.{box_top, box_line, box_bottom, box-width}
use shiro.Text.Numbers.{parse_hex}
use shiro.Commands.Lines.{
  str, dec, hex, line, length-line, length-build, build-whole, hex_digits, length-hex_digits,
}
use shiro.Commands.Kernel.{
  cmd_help, help_lines, cmd_tasks, task_lines, task_line, cmd_uptime, cmd_ticks, cmd_cpuid,
  cmd_date, Cpuid, current_id, descriptions,
}
use shiro.Commands.Memory.{
  cmd_mem, cmd_pmm, cmd_paging, cmd_peek, cmd_dumpmem, dump_row, byte_columns, char_columns,
}
use shiro.Commands.Files.{cmd_ls, file_lines, file_line, cmd_cat, contents, cut_lines}
use shiro.Commands.Wrap.{all_short, cut_lines-characters}
use shiro.Text.Dispatch.{command_table}
use shiro.BootInfo.Initrd.{Initrd, entry_at, find, data_of}
use shiro.BootInfo.Multiboot.{Multiboot}
use shiro.Scheduler.{Scheduler, Task, is_unused}
use shiro.Heap.{Heap}
use shiro.Pmm.{Pmm}
use shiro.Tags.{Words}
use shiro.Devices.Paging.{Mmu}
use shiro.Base.{
  ℕ, zero, suc, ◌+◌, ◌*◌, ◌≤◌, ◌≡◌, refl, ap, true, false, not, List, [], ◌∷◌, ◌++◌, length, map,
  length-append, ◌==◌, leb, if◌then◌else◌, add32, clear_low, codes, arith, Bool-cases, Option-cases,
  inl, inr,
}

-- All the lines have at most 79 characters.
abbrev pub Short : List (List ℕ) → Type 0
Short [] = Unit
Short (l ∷ ls) = (length l ≤ 79) × Short ls

append-Short : (ls ms : List (List ℕ)) → Short ls → Short ms → Short (ls ++ ms)
append-Short [] ms a b = b
append-Short (l ∷ ls) ms (h, a) b = (h, append-Short ls ms a b)

top : (title : List ℕ) → length (box_top title) ≤ 79
top title = omega (arith, (box-width title []).0)

box : (content : List ℕ) → length (box_line content) ≤ 79
box content = omega (arith, (box-width [] content).1)

bottom : length box_bottom ≤ 79
bottom = omega (arith, (box-width [] []).2)

help_lines-Short : (names descs : List (List ℕ)) → Short (help_lines names descs)
unfolding help_lines
help_lines-Short [] descs = tt
help_lines-Short (n ∷ names) [] = tt
help_lines-Short (n ∷ names) (d ∷ descs) = (length-line _, help_lines-Short names descs)

task_lines-Short : (current : ℕ) (ts : List Task) → Short (task_lines current ts)
unfolding task_lines
task_lines-Short current [] = tt
task_lines-Short current (t ∷ ts) = elim (Bool-cases (is_unused t.state)) [
  | inl u ↦ rw u (task_lines-Short current ts)
  | inr u ↦ rw u (box (task_line current t), task_lines-Short current ts)
]

file_lines-Short : (n i : ℕ) (w : Words) (m : ℕ → ℕ) (s : Initrd) → Short (file_lines n i w m s)
unfolding file_lines file_line
file_lines-Short zero i w m s = tt
file_lines-Short (suc n) i w m s = elim (Option-cases (entry_at s i)) [
  | inl e ↦ rw (e, file_lines) (file_lines-Short n (i + 1) w m s)
  | inr (a, e) ↦ rw (e, file_lines) (length-line _, file_lines-Short n (i + 1) w m s)
]

length-byte_columns :
    (n col : ℕ) (p : ℕ → ℕ) (row : ℕ)
    → length (byte_columns n col p row) ≤ 3 * n + (if leb col 7 then 1 else 0)
unfolding byte_columns
length-byte_columns zero col p row = omega arith
length-byte_columns (suc n) col p row = ground (arith, length-byte_columns n (col + 1) p row)

length-char_columns : (n col : ℕ) (p : ℕ → ℕ) (row : ℕ) → length (char_columns n col p row) ≡ n
unfolding char_columns
length-char_columns zero col p row = refl
length-char_columns (suc n) col p row = omega (arith, length-char_columns n (col + 1) p row)

-- The address in front of a row.
length-address : (a : ℕ) → length (line (hex a ∷ str (codes ":  ") ∷ [])) ≤ 13
length-address a =
    let e = build-whole (hex a ∷ str (codes ":  ") ∷ []) 0 [] (omega arith) refl tt in
    omega
      (arith, ap length e, length-append (hex_digits a) (codes ":  " ++ []), length-hex_digits a 11)

dump_row-fits : (p : ℕ → ℕ) (addr row : ℕ) → length (dump_row p addr row) ≤ 79
unfolding dump_row
dump_row-fits p addr row =
    let a = add32 addr (row * 16) in
    let chars = 32 ∷ char_columns 16 0 p row in
    omega (
      arith,
      length-address a,
      length-append (line (hex a ∷ str (codes ":  ") ∷ [])) (byte_columns 16 0 p row ++ chars),
      length-append (byte_columns 16 0 p row) chars,
      length-byte_columns 16 0 p row,
      length-char_columns 16 0 p row,
    )

length-c_string : (l : List ℕ) → length (c_string l) ≤ length l
unfolding c_string
length-c_string [] = omega arith
length-c_string (c ∷ l) = ground (arith, length-c_string l)

strings-Short : (ls : List (List ℕ)) → all_short 79 ls ≡ true → Short (map c_string ls)
strings-Short [] h = tt
strings-Short (l ∷ ls) h =
    (ground (arith, h, length-c_string l), strings-Short ls (ground (arith, h)))

cmd_cat-Short : (w : Words) (m : ℕ → ℕ) (s : Initrd) (args : List ℕ) → Short (cmd_cat w m s args)
unfolding cmd_cat
cmd_cat-Short w m s args = elim (Bool-cases (length args == 0)) [
  | inl z ↦ rw z (omega arith, tt)
  | inr z ↦ elim (Bool-cases s.ready) [
    | inr r ↦ rw (z, r) (omega arith, tt)
    | inl r ↦
        let o : not s.ready ≡ false = ground (arith, r) in
        elim (Option-cases (find m s args)) [
          | inl n ↦ rw (z, o, n) (length-line _, tt)
          | inr (e, f) ↦ elim (Bool-cases (data_of w s e == 0)) [
            | inl d ↦ rw (z, o, f, d) (omega arith, tt)
            | inr d ↦
                rw (z, o, f, d)
                  (strings-Short (cut_lines 80 (contents w m s e) [])
                    (cut_lines-characters (contents w m s e)).1)
          ]
        ]
  ]
]

cmd_ls-Short : (w : Words) (m : ℕ → ℕ) (s : Initrd) → Short (cmd_ls w m s)
unfolding cmd_ls
cmd_ls-Short w m s = elim (Bool-cases s.ready) [
  | inr r ↦ rw r (omega arith, tt)
  | inl r ↦
      let o : not s.ready ≡ false = ground (arith, r) in
      rw o (length-line _, file_lines-Short s.file_count 0 w m s)
]

cmd_peek-Short : (w : Words) (args : List ℕ) → Short (cmd_peek w args)
unfolding cmd_peek
cmd_peek-Short w args = elim (Option-cases (parse_hex args)) [
  | inl n ↦ rw (n, Short) (omega arith, (omega arith, tt))
  | inr (a, e) ↦ rw (e, Short) (length-line _, tt)
]

cmd_dumpmem-Short : (m : ℕ → ℕ) (args : List ℕ) → Short (cmd_dumpmem m args)
unfolding cmd_dumpmem
cmd_dumpmem-Short m args = elim (Option-cases (parse_hex args)) [
  | inl n ↦ rw (n, Short) (omega arith, tt)
  | inr (a, e) ↦
      let p : ℕ → ℕ = λ i. m (add32 (clear_low 16 a) i) in
      let row = dump_row-fits p (clear_low 16 a) in
      rw (e, Short) (row 0, (row 1, (row 2, (row 3, tt))))
]

-- Whatever the state and the arguments, every line that help, tasks, ls, cat, peek, dumpmem, mem, pmm,
-- paging, uptime, date, ticks and cpuid print has at most 79 characters, so no buffer of 80 bytes is
-- overrun and no line of theirs breaks on the screen.
pub commands-Short :
    (w : Words) (m : ℕ → ℕ) (s : Initrd) (sched : Scheduler) (h : Heap) (mb : Multiboot) (pmm : Pmm)
    (u : Mmu) (zeroth first : Cpuid) (ticks : ℕ) (args : List ℕ)
    → Short (cmd_help)
      × Short (cmd_tasks sched)
      × Short (cmd_ls w m s)
      × Short (cmd_cat w m s args)
      × Short (cmd_peek w args)
      × Short (cmd_dumpmem m args)
      × Short (cmd_mem h mb)
      × Short (cmd_pmm pmm)
      × Short (cmd_paging u)
      × Short (cmd_uptime ticks)
      × Short (cmd_date ticks)
      × Short (cmd_ticks ticks)
      × Short (cmd_cpuid zeroth first)
unfolding cmd_help cmd_tasks cmd_mem cmd_pmm cmd_paging cmd_uptime cmd_date cmd_ticks cmd_cpuid
commands-Short w m s sched h mb pmm u zeroth first ticks args = (
  (omega arith, help_lines-Short command_table descriptions),
  (
    top _,
    (
      box _,
      append-Short (task_lines (current_id sched) sched.tasks) _
          (task_lines-Short (current_id sched) sched.tasks) (box _, (bottom, tt)),
    ),
  ),
  cmd_ls-Short w m s,
  cmd_cat-Short w m s args,
  cmd_peek-Short w args,
  cmd_dumpmem-Short m args,
  (top _, (box _, (box _, (box _, (bottom, (top _, (box _, (box _, (bottom, tt))))))))),
  (top _, (box _, (box _, (box _, (box _, (bottom, tt)))))),
  (top _, (box _, (box _, (box _, (box _, (box _, (box _, (bottom, tt)))))))),
  (length-line _, tt),
  (length-line _, tt),
  (omega (arith, length-build 64 (str (codes "ticks = ") ∷ dec ticks ∷ []) [] (omega arith)), tt),
  (length-line _, (length-line _, (length-line _, (length-line _, tt)))),
)
