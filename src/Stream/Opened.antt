-- ===== src/Stream/Opened.antt =====
-- gdiroh/src/stream.rs: streams as gdiroh/src/raw.rs opens them and takes them on.
use gdiroh.Prelude.{Option, none, some, List, Bool, true, false, String, refl}
use gdiroh.Raw.{Turn, open_stream, adopt}
use gdiroh.Raw.Carry.{carry_reads-EndsLast}
use gdiroh.Stream.{wrap}
use gdiroh.Stream.Reads.{Sound, wrap-Sound}

-- However opening a stream goes and whatever its task then meets, the stream that the game gets is sound.
pub wrap-open_stream-Sound :
    (detached : Bool) (refused : Option String) (turns : List Turn)
    → Sound (wrap (open_stream detached refused turns))
unfolding open_stream
wrap-open_stream-Sound false refused turns = wrap-Sound (open_stream false refused turns) refl
wrap-open_stream-Sound true (some reason) turns =
    wrap-Sound (open_stream true (some reason) turns) refl
wrap-open_stream-Sound true none turns =
    wrap-Sound (open_stream true none turns) (carry_reads-EndsLast true turns)

-- So is one that the remote opened.
pub wrap-adopt-Sound : (detached : Bool) (turns : List Turn) → Sound (wrap (adopt detached turns))
unfolding adopt
wrap-adopt-Sound false turns = wrap-Sound (adopt false turns) tt
wrap-adopt-Sound true turns = wrap-Sound (adopt true turns) (carry_reads-EndsLast true turns)
