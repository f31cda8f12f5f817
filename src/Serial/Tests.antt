-- ===== src/Serial/Tests.antt =====
-- Concrete register values and replies.
use hardware_in_the_loop.Base.{ℕ, ◌-◌, ◌^◌, ◌≡◌, refl, List, [], ◌∷◌, ◌++◌, arith}
use hardware_in_the_loop.Base.Int.{ℤ, pos, negsuc}
use hardware_in_the_loop.Uart.{Wave, done, send_bytes}
use hardware_in_the_loop.Uart.Tests.{line, line-Plays, line-IdleUntil}
use hardware_in_the_loop.Serial.{rsp_single, rsp_all, value_to_bytes, read_register, read_all}
use hardware_in_the_loop.Serial.Protocol.{
  reply_data, register_words, read_register_reply, read_all_reply,
}

abbrev speed_reply : Wave
speed_reply = send_bytes 10 (rsp_single ∷ 9 ∷ value_to_bytes 6 (negsuc 99)) ++ []

read_register_reply_example :
    (e : ℕ) × (read_register (line 40 speed_reply) 10 6 0
      ≡ done (record { header = rsp_single; address = 9; value = 2 ^ 48 - 100 }) e)
read_register_reply_example =
    read_register_reply (line 40 speed_reply) 10 6 9 0 40 (negsuc 99) [] (omega arith) (omega arith)
      (record {
        near = omega arith;
        room = omega arith;
        idle = line-IdleUntil 0 40 speed_reply;
        plays = line-Plays 40 speed_reply;
      })

abbrev ten_values : List ℤ
ten_values =
    pos 1240 ∷ pos 0 ∷ negsuc 5 ∷ pos 3 ∷ pos 4 ∷ pos 5 ∷ negsuc 0 ∷ pos 7 ∷ pos 8 ∷ pos 188 ∷ []

abbrev full_reply : Wave
full_reply = send_bytes 10 (rsp_all ∷ reply_data 6 ten_values) ++ []

read_all_reply_example :
    (e : ℕ) × (read_all (line 40 full_reply) 10 6 0
      ≡ done (record { header = rsp_all; registers = register_words 6 0 ten_values }) e)
read_all_reply_example =
    read_all_reply (line 40 full_reply) 10 6 0 40 ten_values [] (omega arith) refl (omega arith)
      (record {
        near = omega arith;
        room = omega arith;
        idle = line-IdleUntil 0 40 full_reply;
        plays = line-Plays 40 full_reply;
      })
