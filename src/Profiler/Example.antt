-- ===== src/Profiler/Example.antt =====
-- Files for src/Profiler.cpp where none can be opened, for tests.
use pipert.Base.{none}
use pipert.UdpConnection.Wire.{Wire}
use pipert.Profiler.{FileSystem}

abbrev pub no_files : FileSystem Wire
no_files = record {
  fopen = λ filename w. (none, w);
  fclose = λ file w. w;
  fwrite = λ file buffer w. (0, w);
}
