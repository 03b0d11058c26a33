-- ===== src/Lib.antt =====
-- zeusOS: a binder library with a service manager and an input service, in C++.
--
-- The parts and where they are modelled.
-- - Memory: the bytes of a process on the 32-bit little-endian target, with loads and stores.
-- - Parcel (State, Writer, Reader): the marshalling buffer of system/binder/Parcel.cpp. A parcel is
--   its BinderIO with the memory that it writes; `put_uint32` is Parcel::putUint32, and so on. The
--   constructor takes the address of its 1024 bytes, which `new` chooses.
-- - Marshal: the proofs about parcels. An `Item` is one call of a `put` function, `IsDelivered` what
--   the driver documents about a message on its way.
-- - Binder (Protocol, Session, Parse, Call): system/binder/Binder.cpp and include/binder/Binder.h.
--   `binder_parse` is Binder::binderParse, `binder_call` Binder::binderCall, `binder_loop` and
--   `binder_thread_loop` the loops that serve. The commands written to the driver are recorded in
--   `sent`, and the answers of the driver, a list of results of ioctl, are an argument.
-- - ServiceManager: frameworks/servicemanager/ServiceManager.cpp, the list of services and the
--   requests on it. The results of malloc are a list in the state.
--   `manager_handlers` is the process of packages/servicemanager/main_servicemanager.cpp.
-- - Exchange: the proofs about the exchange with the driver. A `Return` is a message of the driver,
--   `follow` what it means.
-- - ThreadPool: frameworks/threadpool/ThreadPool.cpp. `look` is the part of execute_thread under
--   the mutex, `Step` an interleaving of such parts, of add_task and of the owner's calls.
-- - EventDevice: EventDevice::process of frameworks/inputmanager/EventDevice.cpp. `cook_events` is
--   its loop, over the 256 entries of the buffer that read fills.
-- - InputManager: BnInputManager of frameworks/inputmanager/InputManager.cpp. `dispatched` are the
--   writes of dispatchEvent; the results of malloc and dup are lists in the state.
-- - InputReader: frameworks/inputmanager/InputReader.cpp and the fields of a Device. What epoll_wait
--   delivers is an argument, and `read_once` gives the device whose process is called.
-- - FileSystem: what stat, opendir, open and inotify_add_watch say of a path while an operation
--   runs, opendir also by the number of directories that are held open, with the tests of frameworks/inputmanager/Device.cpp on it.
-- - InotifyDevice: frameworks/inputmanager/InotifyDevice.cpp. `add_watch_directory_r` is
--   addWatchDirectory_R, and so on; `process` works on the bytes that read delivers, and its
--   `Noticed` has iRet, the array of the caller and the state.
-- - DeviceScan: EventDevice::scanDevice of frameworks/inputmanager/EventDevice.cpp.
-- - TestService: frameworks/testservice/TestService.cpp, with the lines that it prints.
-- - Calibrate: frameworks/calibrate/Calibrate.cpp. `Doubles` has the operations on double, a list of
--   what readOnce returns is an argument, and the configuration file is a field.
-- - InputLoop: the reader and the dispatching thread of packages/inputmanager/main_inputmanager.cpp
--   with the pool between them. A list of `Turns` is one of their interleavings.
-- - BinderDevice: binderOpen, binderClose and the small calls of system/binder/Binder.cpp, with the
--   descriptors and the mappings of the process. `Kernel` has the results of the system calls.
-- - Proxies: BpServiceManager and BpInputManager of the two files. A `Client` has what the process
--   and the driver bring to a call.
--
-- Machine integers are their 32-bit patterns as native numbers; a signed comparison is `int_lt`.
-- Undefined behaviour (a wild pointer, a write outside an object, a text that is not terminated
-- inside the mapping) is the outcome `fault`, a wait that no given answer ends is `blocked`.
--
-- Fuel: `binder_parse` has a round for every byte of the buffer and one more. `strlen` looks at
-- 128 KiB, the size of the driver's mapping, and leaves it as `none`. `cook_events` counts the
-- events that are left, and `shares_bit` the 32 bits of an int. The walks over directories go 256
-- deep, one more than the longest path, which is enough but for a directory whose path is cut off,
-- and the loop over the events of inotify has a round for every
-- byte of its buffer. The other loops are recursion on their lists.
--
-- Not modelled: the driver, the C library, printing beside that of the test service, drawing on the
-- frame buffer, the singletons and their mutexes, and what the main functions in packages do beside
-- their handlers and threads.
pub mod Base
pub mod Memory
pub mod Parcel
pub mod Marshal
pub mod Binder
pub mod ServiceManager
pub mod Exchange
pub mod ThreadPool
pub mod EventDevice
pub mod InputManager
pub mod InputReader
pub mod Proxies
pub mod FileSystem
pub mod InotifyDevice
pub mod TestService
pub mod DeviceScan
pub mod Calibrate
pub mod InputLoop
pub mod BinderDevice
