-- ===== src/Shell/Steps.antt =====
-- The keyboard's interrupts and the shell's rounds (src/src/classes/keyboard.class.h,
-- src/src/classes/shell.class.h) in any order.
use shiro.Keyboard.{Keyboard, handler}
use shiro.Keyboard.Typing.{IsLine, handler-IsLine}
use shiro.Shell.{Shell}
use shiro.Shell.Editor.{update}
use shiro.Shell.View.{Coherent}
use shiro.Shell.Prompt.{update-Coherent, update-current, update-IsLine}
use shiro.Base.{ℕ, ◌≤◌, ◌≡◌, List, some, arith}

module _ (dispatch : List ℕ → Shell → Shell)
    (keeps : (l : List ℕ) (t : Shell) → (dispatch l t).current_terminal ≡ t.current_terminal) where
  -- A byte from the keyboard that is not written past its buffer, or a round of the shell.
  pub data Step : Shell × Keyboard → Shell × Keyboard → Type 0 where
    interrupt :
        (s : Shell) (kb kb' : Keyboard) (status sc : ℕ)
        → handler status sc kb ≡ some kb'
        → Step (s, kb) (s, kb')
    turn : (s : Shell) (kb : Keyboard) → Step (s, kb) (update dispatch kb s)

  pub data Reach (x : Shell × Keyboard) : Shell × Keyboard → Type 0 where
    here : Reach x x
    next : {y z : Shell × Keyboard} → Reach x y → Step y z → Reach x z

  -- The screen shows the buffers, one of the terminals 1 to 5 is current, and the line is inside its
  -- buffer.
  pub record IsLive (x : Shell × Keyboard) : Type 0 where
    pub coherent : Coherent x.0
    pub lowest : 1 ≤ x.0.current_terminal
    pub highest : x.0.current_terminal ≤ 5
    pub line : IsLine x.1

  Step-IsLive : {x y : Shell × Keyboard} → Step x y → IsLive x → IsLive y
  Step-IsLive (interrupt s kb kb' status sc e) l = record {
    coherent = l.coherent;
    lowest = l.lowest;
    highest = l.highest;
    line = handler-IsLine kb kb' status sc l.line e;
  }
  Step-IsLive (turn s kb) l =
      let c = update-current dispatch kb s keeps in
      let key = l.line.key in
      record {
        coherent = update-Coherent dispatch kb s l.coherent;
        lowest = ground (arith, c, l.lowest);
        highest = ground (arith, c, l.highest, key);
        line = update-IsLine dispatch kb s l.line;
      }

  -- In whatever order keys arrive and the shell runs, and whatever the commands print, as long as no
  -- key is written past the keyboard's buffer and no command switches the terminal: the screen shows the
  -- buffers and one of the five terminals is current. The keyboard's line then has at most 49
  -- characters.
  pub Reach-IsLive : {x y : Shell × Keyboard} → IsLive x → Reach x y → IsLive y
  Reach-IsLive l here = l
  Reach-IsLive l (next r st) = Step-IsLive st (Reach-IsLive l r)
