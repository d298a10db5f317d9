-- ===== src/Knowledge/Guarantee.antt =====
-- Whatever is requested, the documents stay vetted.
use Prim.Native.String.{String}
use sawtai.Session.{Session}
use sawtai.Knowledge.Creation.{Vetted}
