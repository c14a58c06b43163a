-- ===== src/Lib.antt =====
-- Green Island, a framework for Wayland compositors on Qt: the parts with a state of their own.
--
-- The program and the files that model it
--
-- A client library (src/client) shares memory with a compositor. `Shm` announces pixel formats and
-- creates pools (`Client/Shm.antt`: the enumeration of shm.h and `formatToString`;
-- `Client/ShmFormats.antt`: the table of shmformats_p.cpp). A pool hands out buffers
-- (`Client/Buffer.antt`: buffer.cpp; `Client/ShmPool.antt`: shmpool.cpp and `Shm::createPool`).
-- The record `Pool` is `ShmPoolPrivate`, with the list of the calls that it made. `create_pool`,
-- `resize_pool`, `reuse_buffer`, `create_buffer`, `create_image_buffer` and `find_buffer` are the
-- methods `createPool`, `resizePool`, `reuseBuffer`, `createBuffer` (with a size, with an image)
-- and `findBuffer`. `Client/Registry.antt` is registry.cpp: `handle_announce`, `handle_remove` and
-- `handle_sync` are the methods of the same names. `Client/Screencast.antt` is screencaster.cpp,
-- the client of the compositor's `Server/Screencasts.antt`. Below the pool, `ShmPool/Memory.antt`
-- is about the creation of a pool, `Layout.antt` about where the buffers lie, `Reuse.antt` about
-- which buffer is handed out, `Reachable.antt` about the pools that the requests lead to, and
-- `Failure.antt` about the error paths.
--
-- The server library (src/server) is the compositor. Screens: `Server/Screen.antt` is the class
-- `Screen` of screen/screenbackend.cpp with its setters, `Server/FakeScreens.antt` is
-- screen/fakescreenbackend.cpp with the primary screen of screen/screenmanager.cpp, and
-- `Server/NativeScreens.antt` is screen/nativescreenbackend.cpp. Outputs: `Server/Output.antt` has
-- the changesets of output/outputchangeset.cpp, the configurations of
-- output/outputconfiguration.cpp, whose requests are the data type `Request` and the function
-- `handle`, and `Screen::applyChangeset`, which brings a changeset to a screen. Windows:
-- `Server/Window.antt` is shell/clientwindow.cpp; its setters tell others by signals, and what the
-- shells' signals do is `wl_event` and `xdg_event`. `Window/Placement.antt` is `randomPosition`,
-- `Window/Stacking.antt` is `raise` and `lower`, and `Window/Outputs.antt` is `findOutputs`.
-- `Server/Applications.antt` is extensions/applicationmanager.cpp, which windows register with,
-- and `setAppId` of a window, whose signal it receives.
--
-- `Server/QuickOutput.antt` is core/quickoutput.cpp: `mouse_moved` is the event filter of its
-- window. `Server/Screenshots.antt` is extensions/screenshooter.cpp: `capture` is each of its four
-- requests, and `handle` what is then asked of a screenshot. `Server/Screencasts.antt` is
-- extensions/screencaster.cpp: `record_frame` is `recordFrame`, which the rendering thread calls,
-- `deliver_next` and `delete_event` are `Screencast::event`, and `handle` interleaves the two with
-- the clients.
--
-- The plugin plugins/extensions/xwayland starts an X server: `Xwayland/Server.antt` is
-- xwaylandserver.cpp. `search_display` is the loop of `setup`, on fuel, one round being `attempt`;
-- `Xwayland/Server/Setup.antt` gives the fuel that is enough, where the loop ends at all. `handle`
-- is `processEvents` and the slots of the process.
--
-- The platform plugin (src/platform) reads input devices and takes over a terminal:
-- `Platform/Touch.antt` is libinput/libinputtouch.cpp, the contacts of one device and the events
-- that are sent for them, and `Platform/Pointer.antt` is libinput/libinputpointer.cpp, the place
-- and the buttons of the pointer. `Platform/Keyboard.antt` is libinput/libinputkeyboard.cpp, keys
-- and their repetition, over the operations of libxkbcommon as an argument. `Platform/Logind.antt`
-- is logind/logind.cpp: a request is recorded, and its reply is an event.
-- `Platform/InputHandler.antt` is libinput/libinputhandler.cpp, which counts the devices and
-- passes their events to the keyboard and the pointer. `Platform/Terminal.antt` is
-- logind/vthandler.cpp, the virtual terminal; there too `none` for a new state stands for an
-- access through a null pointer.
--
-- The launcher (launcher) runs a compositor: `Launcher/Modes.antt` is compositorlauncher.cpp,
-- which finds the mode, the arguments and the environment, and `Launcher/Process.antt` is
-- compositorprocess.cpp, a child process that is watched and restarted; there `none` for a new
-- state stands for an access through a null pointer.
--
-- `Common.antt` passes on the names of the libraries, with Boolean tests, lists and signed
-- integers over the native numbers (`Common/Tests.antt`, `Lists.antt`, `Int.antt`), and the value
-- types of Qt (`Geometry.antt`). The modules called `Tests` hold examples.
--
-- How the model is set up
--
-- A method is a function from a state to a state, with its answer beside it. A state keeps the
-- signals, the events and the calls to other parts in the order in which they are made. Pointers
-- to windows, surfaces, outputs and screens are numbers. In the pools the sums and products of
-- 32-bit integers wrap around, and so does the area of a rectangle in `findOutputs`; elsewhere an
-- `int` is an integer without bounds. Two loops need not end, those of `handleScreenRemoved` and
-- of `XWaylandServer::setup`: they run on a number of rounds, and `none` stands for a run that is
-- not over by then. All others are recursions over a list, and what the operating system, a
-- service or another thread tells is a list of events, in any order.
--
-- Parameters stand for what is not in the repository: `Answers` for the system calls of a pool or
-- a terminal and the requests to the compositor, `Host` for what the launcher reads of the system,
-- the events of the launcher's child processes for what the system tells of them, `RealOps` for
-- `qreal`, `eq_real` for the comparison of two points, `contains_rect`, `intersected` and
-- `contains_point` for QRect, `add_mode` for `QWaylandOutput::addMode`, and `default_output` for
-- the compositor's default output. The texts, lists and hashes of Qt are those of the library
-- here.
--
-- What is not modelled
--
-- The copy of Qt Wayland Compositor (src/waylandcompositor), the EGL plugins and the buffers of
-- graphics drivers (plugins, src/hardwareintegration, src/platform/deviceintegration), the window
-- manager for X clients, which talks to an X server, and the QML bindings (declarative): code of
-- other projects, or calls to libraries that are not in the repository. Of the client library,
-- outputs, seats and their devices, cursors, windows and screenshots; of the server library,
-- gtk_shell, the output management requests and the application of a new configuration; of the
-- client screencasts, how the two threads that record frames interleave; of the platform plugin,
-- gestures, cursors, and the wrappers of udev. Of the modelled files, reading and parsing the
-- configuration of fake screens, the desktop files and icons of windows, and the lists for QML. Of
-- the launcher, the call of execve and the command line are left out.
pub mod Common
pub mod Client
pub mod Server
pub mod Platform
pub mod Xwayland
pub mod Launcher
