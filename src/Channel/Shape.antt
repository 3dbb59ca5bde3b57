-- ===== src/Channel/Shape.antt =====
-- What the methods of src/ChannelImpl.cpp leave of a channel: its monitor object and its capacity.
use pipert.Base.{ℕ, ◌≡◌, refl, List, [], ◌∷◌, Bool, some, arith}
use pipert.Timer.{Time}
use pipert.Channel.{ChannelImpl, log, log_read, put_free, release, take_free}

-- A channel of the same object and capacity.
pub record SameShape (ch ch' : ChannelImpl) : Type 0 where
  pub object : ch'.single_thread_object ≡ ch.single_thread_object
  pub capacity : ch'.capacity ≡ ch.capacity

pub take_free-SameShape : (ch : ChannelImpl) → SameShape ch (take_free ch).1
unfolding take_free
take_free-SameShape ch = of_free ch.free_packets refl
  where
    of_free : (l : List ℕ) → ch.free_packets ≡ l → SameShape ch (take_free ch).1
    of_free [] e = rw e (record { object = refl; capacity = refl })
    of_free (x ∷ l) e = rw e (record { object = refl; capacity = refl })

pub release-SameShape :
    (ch ch' : ChannelImpl) (packet : ℕ) (now : Time) (dropping_packet : Bool)
    → release ch packet now dropping_packet ≡ some ch'
    → SameShape ch ch'
unfolding release log_read put_free log
release-SameShape ch ch' packet now dropping_packet e = record {
  object = ground (arith, e);
  capacity = ground (arith, e);
}
