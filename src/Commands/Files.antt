-- ===== src/Commands/Files.antt =====
-- The commands of src/src/classes/commands.class.h on the ramdisk, ls and cat, and the loop of
-- src/src/kernel.cpp that runs its `init.sh`: both cut a file into lines.
use shiro.Commands.Lines.{str, dec, pad, line}
use shiro.BootInfo.Initrd.{Initrd, find, data_of, entry_at, name_at}
use shiro.CString.{c_string}
use shiro.Text.Dispatch.{Outcome, dispatch}
use shiro.Tags.{Words}
use shiro.Base.{
  ℕ, zero, suc, ◌+◌, ◌-◌, Bool, false, not, ◌||◌, List, [], ◌∷◌, ◌++◌, length, map, Option, none,
  some, leb, ◌==◌, if◌then◌else◌, codes,
}

-- A file that is listed: `AppendStr` reads the name up to a NUL, and no more than the buffer holds.
unfoldable pub file_line : Words → (ℕ → ℕ) → ℕ → List ℕ
file_line w m e =
    line
      (str (codes "  ") ∷ dec (w (e + 32)) ∷ pad 10 ∷ str (codes "  ") ∷ str (name_at 80 m e) ∷ [])

-- The loop of `cmd_ls`, with `n` files left.
unfoldable pub file_lines : ℕ → ℕ → Words → (ℕ → ℕ) → Initrd → List (List ℕ)
file_lines zero i w m s = []
file_lines (suc n) i w m s = elim (entry_at s i) [
  | none ↦ file_lines n (i + 1) w m s
  | some e ↦ file_line w m e ∷ file_lines n (i + 1) w m s
]

-- `cmd_ls`.
unfoldable pub cmd_ls : Words → (ℕ → ℕ) → Initrd → List (List ℕ)
cmd_ls w m s =
    if not s.ready
    then codes "ls: initrd not loaded" ∷ []
    else line (
        str (codes "Initrd contents (")
        ∷ dec s.file_count
        ∷ str (codes " files, ")
        ∷ dec s.length
        ∷ str (codes " bytes total):")
        ∷ [])
      ∷ file_lines s.file_count 0 w m s

-- One round of the loop that cuts bytes into lines of less than `cap` characters: the line that it
-- ends, and the line so far. A carriage return is passed over; the byte that a full line has no room
-- for starts the next.
unfoldable pub cut_step : ℕ → List ℕ → ℕ → Option (List ℕ) × List ℕ
cut_step cap acc b =
    if b == 13
    then (none, acc)
    else if (b == 10) || leb (cap - 1) (length acc)
    then (some acc, if b == 10 then [] else b ∷ [])
    else (none, acc ++ b ∷ [])

abbrev pub emit : Option (List ℕ) → List (List ℕ) → List (List ℕ)
emit none ls = ls
emit (some l) ls = l ∷ ls

-- The loop, and the rest of a last line without an end.
unfoldable pub cut_lines : ℕ → List ℕ → List ℕ → List (List ℕ)
cut_lines cap [] acc = if length acc == 0 then [] else acc ∷ []
cut_lines cap (b ∷ bs) acc = emit (cut_step cap acc b).0 (cut_lines cap bs (cut_step cap acc b).1)

-- The `n` bytes at `a`.
unfoldable pub bytes_at : ℕ → (ℕ → ℕ) → ℕ → List ℕ
bytes_at zero m a = []
bytes_at (suc n) m a = m a ∷ bytes_at n m (a + 1)

-- The bytes of the file of an entry.
abbrev pub contents : Words → (ℕ → ℕ) → Initrd → ℕ → List ℕ
contents w m s e = bytes_at (w (e + 32)) m (data_of w s e)

-- `cmd_cat`.
unfoldable pub cmd_cat : Words → (ℕ → ℕ) → Initrd → List ℕ → List (List ℕ)
cmd_cat w m s args =
    if length args == 0
    then codes "usage: cat <filename>" ∷ []
    else if not s.ready
    then codes "cat: initrd not loaded" ∷ []
    else elim (find m s args) [
      | none ↦ line (str (codes "cat: file not found: ") ∷ str args ∷ []) ∷ []
      | some e ↦
          if data_of w s e == 0
          then codes "cat: read error" ∷ []
          else map c_string (cut_lines 80 (contents w m s e) [])
    ]

-- A line of the script that is neither empty nor a comment.
abbrev pub is_directive : List ℕ → Bool
is_directive [] = false
is_directive (c ∷ l) = not (c == 35)

unfoldable pub run_script : List (List ℕ) → List Outcome
run_script [] = []
run_script (l ∷ ls) =
    let rest = run_script ls in if is_directive l then dispatch (c_string l) ∷ rest else rest

-- Step 4 of `shiro_main`: what the lines of `init.sh` lead to, in order.
unfoldable pub run_init : Words → (ℕ → ℕ) → Initrd → List Outcome
run_init w m s = elim (find m s (codes "init.sh")) [
  | none ↦ []
  | some e ↦ run_script (cut_lines 80 (contents w m s e) [])
]
