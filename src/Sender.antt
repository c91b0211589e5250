-- ===== src/Sender.antt =====
-- cmd/ucl-virtio-gpu-wl-send/ucl_virtio_gpu_wl_send.go: the polling loops and the index of the card.
-- A return value of 0 is `true` here, and one of -1 is `false`.
pub mod Found
pub mod Index
pub mod Run
pub mod Sockets
mod Tests
use ucl_tools.Base.{
  ℕ, zero, suc, ◌+◌, ◌/◌, Bool, true, false, not, ◌||◌, is_some, Option, none, some, List, [], ◌∷◌,
  ◌++◌, map, if◌then◌else◌, Text, text, itoa, pos,
}

-- The loops of `waitFileDetection` and of `waitUnixSocketConnectable`, over what a round finds: whether
-- the process is alive, and whether the file is there (or the socket takes the connection). There are
-- `left` rounds left, of which the next is `count`.
unfoldable pub poll : ℕ → ℕ → (ℕ → Bool) → (ℕ → Bool) → Bool
poll zero count alive there = false
poll (suc left) count alive there =
    let rest = poll left (suc count) alive there in
    if not (alive count) then false else if there count then true else rest

-- `countMax` of both.
abbrev pub count_max : ℕ
count_max = 10

unfoldable pub wait_file_detection : (ℕ → Bool) → (ℕ → Bool) → Bool
wait_file_detection alive exists = poll count_max 0 alive exists

unfoldable pub wait_unix_socket_connectable : (ℕ → Bool) → (ℕ → Bool) → Bool
wait_unix_socket_connectable alive dials = poll count_max 0 alive dials

-- The loop of `waitRvgpuDevices` over what the goroutines have put on the channel.
unfoldable pub all_found : List Bool → Bool
all_found [] = true
all_found (false ∷ results) = false
all_found (true ∷ results) = all_found results

abbrev pub numbered : Text → ℕ → Text
numbered path card = path ++ itoa (pos card)

abbrev pub card_path : ℕ → Text
card_path card = numbered (text "/dev/dri/rvgpu_virtio") card

-- The files that `waitRvgpuDevices` waits for.
abbrev pub device_files : ℕ → List Text
device_files card =
    card_path card
    ∷ numbered (text "/dev/input/rvgpu_touch") card
    ∷ numbered (text "/dev/input/rvgpu_mouse") card
    ∷ numbered (text "/dev/input/rvgpu_mouse_abs") card
    ∷ numbered (text "/dev/input/rvgpu_keyboard") card
    ∷ []

-- `waitRvgpuDevices`, with the results in the order of its `go` statements; `exists path` says in which
-- rounds of its loop the file is there. The answer does not depend on the order.
unfoldable pub wait_rvgpu_devices : (ℕ → Bool) → (Text → ℕ → Bool) → ℕ → Bool
unfolding wait_file_detection all_found
wait_rvgpu_devices alive exists card =
    all_found (map (λ path. wait_file_detection alive (exists path)) (device_files card))

-- What the `select` of `waitForConnectionEstablished` finds, with the answer of
-- `isConnectionEstablished` at a tick.
pub data Tick : Type 0 where
  timeout : Tick
  tick : Bool → Tick

-- `waitForConnectionEstablished`; `none` while it waits.
unfoldable pub wait_for_connection_established : List Tick → Option Bool
wait_for_connection_established [] = none
wait_for_connection_established (timeout ∷ ticks) = some false
wait_for_connection_established (tick true ∷ ticks) = some true
wait_for_connection_established (tick false ∷ ticks) = wait_for_connection_established ticks

-- The index file: what it holds before, whether it can be removed, opened and written, and what a failed
-- write leaves in it.
pub record IndexFile : Type 0 where
  pub content : Option Text
  pub removes : Bool
  pub opens : Bool
  pub writes : Bool
  pub partial : Text

abbrev pub index_string : ℕ → Text
index_string card = itoa (pos card) ++ (b'\n' ∷ [])

-- What is there after `os.Remove`, whose error is ignored.
abbrev pub cleared : IndexFile → Option Text
cleared file = if file.removes then none else file.content

-- The body behind `!fileExists(devPath)` in `reserveRvgpuIndex`: the file is removed and made anew, which
-- `O_EXCL` refuses where it is still there.
abbrev pub write_index : IndexFile → ℕ → Option Text × Option ℕ
write_index file card =
    if is_some (cleared file) || not file.opens
    then (cleared file, none)
    else if not file.writes
    then (some file.partial, none)
    else (some (index_string card), some card)

-- `CARD_MAX`.
abbrev pub card_max : ℕ
card_max = 65

-- The loop of `reserveRvgpuIndex`, with `left` cards from `card` on: the index file, and the card or
-- `none` for -1.
unfoldable pub reserve : ℕ → ℕ → (ℕ → Bool) → IndexFile → Option Text × Option ℕ
reserve zero card exists file = (file.content, none)
reserve (suc left) card exists file =
    let rest = reserve left (suc card) exists file in
    if not (exists card) then write_index file card else rest

unfoldable pub reserve_rvgpu_index : (ℕ → Bool) → IndexFile → Option Text × Option ℕ
unfolding reserve
reserve_rvgpu_index exists file = reserve card_max 0 exists file
