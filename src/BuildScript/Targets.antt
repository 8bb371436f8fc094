-- ===== src/BuildScript/Targets.antt =====
-- Classes of targets: jevmalloc-sys/src/env.rs, `gnu_target` and `make_cmd`.
use jevmalloc.Prelude.{Bool, false, ◌||◌, List, [], ◌∷◌, if◌then◌else◌, same_bytes, codes, map}
use jevmalloc.BuildScript.Bytes.{Text, contains_text}

unfoldable pub unsupported_targets : List Text
unsupported_targets =
    map codes ("rumprun" ∷ "bitrig" ∷ "emscripten" ∷ "fuchsia" ∷ "redox" ∷ "wasm32" ∷ [])

unfoldable pub untested_targets : List Text
untested_targets = map codes ("openbsd" ∷ "msvc" ∷ [])

unfoldable pub no_unprefixed_malloc_targets : List Text
no_unprefixed_malloc_targets =
    map codes ("android" ∷ "dragonfly" ∷ "musl" ∷ "darwin" ∷ "openbsd" ∷ [])

-- `LIST.iter().any(|i| target.contains(i))`
abbrev pub any_in : Text → List Text → Bool
any_in target [] = false
any_in target (part ∷ rest) = contains_text target part || any_in target rest

unfoldable pub gnu_target : Text → Text
gnu_target target =
    if same_bytes target (codes "i686-pc-windows-msvc")
    then codes "i686-pc-win32"
    else if same_bytes target (codes "x86_64-pc-windows-msvc")
    then codes "x86_64-pc-win32"
    else if same_bytes target (codes "i686-pc-windows-gnu")
    then codes "i686-w64-mingw32"
    else if same_bytes target (codes "x86_64-pc-windows-gnu")
    then codes "x86_64-w64-mingw32"
    else if same_bytes target (codes "armv7-linux-androideabi")
    then codes "arm-linux-androideabi"
    else if same_bytes target (codes "riscv64gc-unknown-linux-gnu")
    then codes "riscv64-linux-gnu"
    else if same_bytes target (codes "riscv64gc-unknown-linux-musl")
    then codes "riscv64-linux-musl"
    else target

unfoldable pub gmake_hosts : List Text
gmake_hosts =
    map codes ("bitrig" ∷ "dragonfly" ∷ "freebsd" ∷ "netbsd" ∷ "openbsd" ∷ "chimera-linux" ∷ [])

unfoldable pub make_cmd : Text → Text
make_cmd host =
    if any_in host gmake_hosts
    then codes "gmake"
    else if contains_text host (codes "windows")
    then codes "mingw32-make"
    else codes "make"
