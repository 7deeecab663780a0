-- ===== src/Runtime/Variants.antt =====
-- `GetProcessImageFileFolder` of src/Runtime.cc on the Unix systems other than Linux.
use svnsrv.Base.{[], Option, none, some}
use svnsrv.Base.Run.{Run}
use svnsrv.Base.Text.{Bytes}
use svnsrv.Runtime.{System, folder_of, get_process_image_file_folder}

-- On macOS: `_NSGetExecutablePath`, with `none` for a result that is not 0, and `realpath`, with `none`
-- for a null pointer. A real path is shorter than the array.
unfoldable pub apple_folder : Option Bytes → Option Bytes → Option Bytes
unfolding folder_of
apple_folder none link_path = none
apple_folder (some exe_path) none = folder_of exe_path
apple_folder (some exe_path) (some link_path) = folder_of link_path

-- On FreeBSD: what `sysctl` stores. Its result is not looked at: where it fails the array is empty.
unfoldable pub free_bsd_folder : Option Bytes → Option Bytes
unfolding folder_of
free_bsd_folder none = folder_of []
free_bsd_folder (some exe_path) = folder_of exe_path

-- On NetBSD and on DragonFly the code is that of Linux with other links, here the system's `self_exe`.
unfoldable pub net_bsd_folder : System → Run (Option Bytes)
unfolding get_process_image_file_folder
net_bsd_folder sys = get_process_image_file_folder sys

unfoldable pub dragon_fly_folder : System → Run (Option Bytes)
unfolding get_process_image_file_folder
dragon_fly_folder sys = get_process_image_file_folder sys
