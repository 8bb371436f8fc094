-- ===== src/Tests/Messages.antt =====
-- The theorem on messages at an error of an arena.
use jevmalloc.Prelude.{ℕ, ◌≡◌, arith, refl, codes}
use jevmalloc.System.{Error}
use jevmalloc.Ctl.Error.{description}
use jevmalloc.Ctl.Messages.{
  message, described, digits, signed_decimal, arena_message, cache_message,
}
use jevmalloc.Ctl.Reading.{read_code, read_destroy, messages_read_back}
use jevmalloc.Tests.Toy.{linux}

abbrev fault : Error
fault = record { code = 14 }

message-fault : message linux fault ≡ codes "Bad address (errno 14)"
unfolding message described description signed_decimal digits
message-fault = refl

-- A negative code is written with its sign.
message_of_negative :
    message linux (record { code = 4294967295 }) ≡ codes "Unknown jemalloc error (errno -1)"
unfolding message described description signed_decimal digits
message_of_negative = refl

messages_read_back_example :
    (read_code (message linux fault) ≡ 14)
    × (◌≡◌ {A = ℕ × ℕ} (read_destroy 24 (arena_message linux 305 fault)) (305, 14))
    × (◌≡◌ {A = ℕ × ℕ} (read_destroy 40 (cache_message linux 305 fault)) (305, 14))
messages_read_back_example = messages_read_back linux 305 fault (omega arith) (omega arith)
