-- ===== src/Console/Tests.antt =====
-- Lines typed at the prompt, and concrete inputs to the theorems.
use shiro.Console.{Event, byte, round, run}
use shiro.Console.Session.{Ran}
use shiro.Console.Lines.{typed_line-Ran}
use shiro.Console.Typing.{all_plain, typed}
use shiro.Keyboard.{Keyboard, key_char, unshifted}
use shiro.Shell.{Shell, current, content_color}
use shiro.Screen.Lines.{IsFresh}
use shiro.Devices.Vga.{set_color}
use shiro.Commands.Run.{World, effect, effects, effect_of, prints}
use shiro.Commands.Kernel.{cmd_ticks}
use shiro.Commands.Lines.{build, add}
use shiro.Text.Dispatch.{
  dispatch, skip_blanks, dispatch_from, split_word, run_command, find_command, same_str, append_str,
}
use shiro.Text.Numbers.{int_to_str, collect}
use shiro.BootInfo.Multiboot.{reset}
use shiro.Pmm.{reserved}
use shiro.Base.{ℕ, ◌≡◌, refl, ap, ◌∙◌, true, false, List, [], ◌∷◌, ◌++◌, some, codes, arith}

-- An empty screen, and a keyboard on which nothing was typed.
abbrev shell : Shell
shell = record {
  screen = λ j. 0;
  terminal_screen_header = λ j. 0;
  terminal_screen_status = λ j. 0;
  terminal_screen_footer = λ j. 0;
  terminal_screens = λ i j. set_color 32 content_color;
  current_terminal = 1;
  header_current_x = 0;
  content_current_x = 0;
  footer_current_x = 0;
  cursor_x = 7;
}

abbrev with_line : List ℕ → ℕ → Keyboard
with_line line key = record {
  buffer = line;
  was_updated = true;
  function_key = key;
  shift_pressed = false;
  ctrl_pressed = false;
  alt_pressed = false;
  caps_lock = false;
  extended_prefix = false;
}

abbrev world : World
world = record {
  words = λ a. 0;
  bytes = λ a. 0;
  initrd = record { base = 0; length = 0; file_count = 0; entries = 0; ready = false };
  scheduler = record {
    tasks = [];
    current = 0;
    spawned_count = 0;
    ready = false;
    in_preempt = false;
  };
  heap = record {
    first = 0;
    base = 0;
    end = 0;
    bytes_used = 0;
    bytes_free = 0;
    alloc_count = 0;
    free_count = 0;
    ready = false;
    mem = λ a. record { magic = 0; size = 0; used = 0; next = 0 };
  };
  multiboot = reset;
  pmm = reserved;
  mmu = record { ready = true; cr0 = 0x80000011; cr3 = 0x110000; cr4 = 0x10 };
  leaf0 = record { eax = 0; ebx = 0; ecx = 0; edx = 0 };
  leaf1 = record { eax = 0; ebx = 0; ecx = 0; edx = 0 };
  ticks = 4711;
  build_date = codes "Jan  1 2024";
  build_time = codes "00:00:00";
}

shell-IsFresh : IsFresh (current shell)
shell-IsFresh = record { left = refl; row = λ k low. refl }

abbrev printed : List (List ℕ)
printed = codes "ticks = 4711" ∷ []

ticks_effect : effect world (codes "ticks") ≡ prints printed
unfolding effect effects effect_of dispatch skip_blanks dispatch_from split_word run_command
    find_command same_str cmd_ticks build add append_str int_to_str collect
ticks_effect = refl

-- The keys t, i, c, k and s, with Shift pressed and released before them, a release among them and rounds
-- of the shell between.
abbrev keys : List Event
keys =
    byte 0x2A
    ∷ byte 0xAA
    ∷ byte 0x14
    ∷ byte 0x94
    ∷ round world
    ∷ byte 0x17
    ∷ byte 0x2E
    ∷ round world
    ∷ round world
    ∷ byte 0x25
    ∷ byte 0x1F
    ∷ []

keys-typed : typed false false keys ≡ codes "ticks"
unfolding key_char unshifted
keys-typed = refl

keys_plain : all_plain false false keys ≡ true
unfolding key_char unshifted
keys_plain = refl

typed_line-Ran_example :
    (s' : Shell) × (kb' : Keyboard) × (run
        (keys ++ byte 0x1C ∷ round world ∷ [])
        shell
        (with_line [] 0)
      ≡ some (s', kb'))
    × Ran s' (typed false false keys) printed
    × (s'.current_terminal ≡ 1)
    × (kb'.buffer ≡ [])
typed_line-Ran_example =
    typed_line-Ran keys world shell (with_line [] 0) printed refl refl refl keys_plain (omega arith)
      (omega arith) (ap (effect world) keys-typed ∙ ticks_effect) refl (omega arith) shell-IsFresh
