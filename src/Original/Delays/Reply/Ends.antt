-- ===== src/Original/Delays/Reply/Ends.antt =====
-- The receiving loop of so-src/original/delays.c ends.
use Prim.Native.String.{String}
use universe_native_linux_in.Abi.{Abi}
use universe_native_linux_in.Machine.Stops.{Stops}
use universe_native_linux_in.Machine.Ensures.{Ensures}
use universe_native_linux_in.GetTaskstats.Ends
