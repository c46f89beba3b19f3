-- ===== src/Serial/Tests.antt =====
-- Logs of src/src/classes/debug.class.h, and concrete inputs to the theorems.
use shiro.Devices.Pic.{Writes}
use shiro.Serial.{Value, text, number, prepare, send, log}
use shiro.Serial.Messages.{received, split_lines, log_all, LinesShow, split_lines-log_all}
use shiro.Panic.{int2char}
use shiro.Text.Numbers.{collect}
use shiro.Base.{◌≡◌, refl, some, List, [], ◌∷◌, codes}

abbrev boot_log : List (Value × List Value)
boot_log =
    (text (codes "> Starting PIT timer at "), number 100 ∷ text (codes " Hz") ∷ [])
    ∷ (text (codes "> Starting VGA"), [])
    ∷ []

first_line :
    log (text (codes "> Starting PIT timer at ")) (number 100 ∷ text (codes " Hz") ∷ [])
    ≡ some (send (codes "> Starting PIT timer at 100 Hz\r\n"))
unfolding log send prepare int2char collect
first_line = refl

split_lines-log_all_example :
    (ws : Writes) × (log_all boot_log ≡ some ws) × LinesShow boot_log (split_lines [] (received ws))
split_lines-log_all_example = split_lines-log_all boot_log refl
