-- ===== src/SenderLogger/Tests.antt =====
-- Pushes by the threads 1 to 5 on src/SenderLogger.h.
use mathlib.Core.List.{Perm}
use pipert.Base.{ℕ, ◌≤◌, ◌≡◌, refl, ◌==◌, List, [], ◌∷◌, arith, count, length, if◌then◌else◌}
use pipert.SenderLogger.{Sender, SenderLogger, sender_logger, serialize, serialize_n_clear}
use pipert.SenderLogger.Top.{AtMost, report, serialize-report}
use pipert.SenderLogger.Counting.{
  sent, has_place, after_pushes, sent-after_pushes, serialize_n_clear-fits,
}

-- The fifth thread finds no place.
abbrev pushes : List ℕ
pushes = 5 ∷ 2 ∷ 4 ∷ 3 ∷ 2 ∷ 1 ∷ []

abbrev name_of : ℕ → List ℕ
name_of n = 84 ∷ []

sent-after_pushes_example :
    sent 2 (after_pushes (sender_logger 9) pushes).senders
    ≡ (if has_place 2 (after_pushes (sender_logger 9) pushes).senders then count 2 pushes else 0)
sent-after_pushes_example = sent-after_pushes 9 pushes 2 (omega arith)

serialize_n_clear-fits_example :
    (5 ≤ length (serialize_n_clear name_of (after_pushes (sender_logger 9) pushes)).0)
    × (length (serialize_n_clear name_of (after_pushes (sender_logger 9) pushes)).0 ≤ 32)
    × (sent 2 (serialize_n_clear name_of (after_pushes (sender_logger 9) pushes)).1.senders ≡ 0)
serialize_n_clear-fits_example =
    serialize_n_clear-fits name_of (after_pushes (sender_logger 9) pushes) 2 (omega arith)

-- Two packets of the thread 2, after one of the thread 1.
abbrev first_sender : Sender
first_sender = record { sender_name = 1; sent_packets = 1 }

abbrev second_sender : Sender
second_sender = record { sender_name = 2; sent_packets = 2 }

abbrev two_senders : SenderLogger
two_senders = record { track_event = 9; senders = first_sender ∷ second_sender ∷ [] }

serialize-report_example :
    (top : Sender) × (others : List Sender) × (serialize name_of two_senders ≡ (
      report (if top.sender_name == 0 then 78 ∷ 47 ∷ 65 ∷ [] else name_of top.sender_name),
      record two_senders { senders = top ∷ others },
    ))
    × Perm two_senders.senders (top ∷ others)
    × AtMost top.sent_packets two_senders.senders
serialize-report_example =
    serialize-report name_of two_senders first_sender (second_sender ∷ []) refl
