-- ===== src/ProfileData/Tests.antt =====
-- One call on the channel of Example.antt.
use pipert.Base.{arith}
use pipert.LogAggregate.Example.{shifted}
use pipert.ProfileData.{begin_round}
use pipert.ProfileData.Gathering.{Readable}
use pipert.ProfileData.Calling.{Called, gather_n_serialize-Called}
use pipert.ProfileData.Example.{little_endian, names, channel_data, read_at}

gather_n_serialize-Called_example :
    Called shifted little_endian names read_at 128 channel_data (begin_round names channel_data)
gather_n_serialize-Called_example =
    gather_n_serialize-Called shifted little_endian names read_at 128 channel_data (omega arith)
      (unfold Readable begin_round in (omega arith, omega arith, (omega arith, omega arith, tt)))
