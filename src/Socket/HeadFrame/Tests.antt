-- ===== src/Socket/HeadFrame/Tests.antt =====
-- Head frames (private_libary/linux_socket/socket_protocol.c) at concrete inputs.
use itrace.Prelude.{◌≡◌, refl}
use itrace.Socket.HeadFrame.{HeadFrame, init_head_frame}

abbrev hello : HeadFrame
hello = record { id = 7; len = 0x102; flag = 8; res = 9 }

init_head_frame_values : init_head_frame 7 8 9 0x102 ≡ hello
unfolding init_head_frame
init_head_frame_values = refl
