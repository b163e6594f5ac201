-- ===== src/Lib.antt =====
-- The TASTE runtime for RTEMS on the SAMV71 and SAMRH71 processors.
--
-- The runtime lies between the code that TASTE generates for the interfaces of a system and RTEMS
-- with the board support library. Threads receive requests from queues and run a user function for
-- each; timers send the requests of cyclic interfaces; a monitor records activations, execution
-- times, queue lengths, stack usage and the idle time; the hardware abstraction layer gives the
-- time and semaphores; a driver of the DMA controller serves the drivers of the peripherals; a
-- fault leaves a death report for the boot software and resets the processor.
--
-- Each part is a module, and its children hold the proofs. A function has its name of the C code
-- in lower case with underscores, without the prefix of its module.
--
-- Xdmac: src/Xdmac. Machine has the driver's structures (xdmad.h), the registers, and a
-- computation type M whose `none` is a failed assertion or an access outside an array; what the
-- code does to the controller, to the lock and to the callbacks is a history of events, the outside
-- answers as any function of that history, and a callback is any partial function on the machine, so
-- that it may call the driver. Registers is xdmac.c, Interface is
-- xdma_hardware_interface.c, Driver, Transfer and Handler are xdmad.c. Lifecycle is the abstract
-- driver: a table of replies and next states for the commands of a client. Setup, Allocation,
-- Commands, Interrupts, Polling and Ownership hold the theorems about the operations and about all
-- runs. The numbers of the peripherals belong to the board library and are a parameter.
--
-- Monitor: src/Monitor/Monitor.c. Log is the activation log as it is built with
-- RT_EXEC_LOG_ACTIVE, Stack the search for the high-water mark and the visit of the threads, State
-- the arrays that the monitor shares with ThreadsCommon and the idle thread. The elements of the
-- log are the memory that the linker reserves. Floating-point arithmetic (Reals), the queues
-- (Rtems) and rtems_task_iterate are parameters.
--
-- Threads: src/ThreadsCommon/ThreadsCommon.c. Request has the sending and the processing of a
-- request, over the state of Monitor.State and the log of Monitor.Log; Cyclic has the timers of
-- the cyclic interfaces. Reading number k of the time gives the k-th value of any function, and a
-- user function is any function on the state.
--
-- Hal: src/Hal/Hal.c and src/BootHelper/BootHelper.c. Time is the elapsed time, with the
-- interrupts of the timer as explicit numbers between the steps of the loop that reads it;
-- Semaphores are the semaphores; Watchdog is its set-up in the builds with RT_RTOS_NO_INIT and
-- RT_RTOS_USE_WATCHDOG or without, with the idle task; Start is Hal_Init, which runs the
-- watchdog's set-up, the start of the processor from Core, the timer and the length of a tick from
-- Time in this order, and the sleep; Reset is the reason of the last reset.
--
-- Broker: src/BrokerLock/BrokerLock.c, the two calls of the semaphore.
--
-- Report: src/FaultHandler/DeathReportWriter.c and DeathReport.h. Crc is the checksum, Writer the
-- report.
--
-- Fault: src/FaultHandler/FaultHandler.c and CustomExceptionVector.c. The root is a processor with
-- the instructions that the assembly of Fault_Handler uses; Handler is this assembly, an
-- instruction for a line; Report has the offsets of the words that it stores; Tail goes on to the
-- report of Report.Writer and the reset; Vector is the table of the handlers of all three devices.
-- Expected says what is to be stored; Captured, Stored and Whole follow the stores through the
-- instructions.
--
-- Core: src/SamV71Core/SamV71Core.c and src/SamRH71Core/SamRH71Core.c. Clock has the frequencies
-- of both processors, Config what their preprocessors make of the macros of a build: Rh71 and V71
-- are the two chains of #if with their #errors, over the tests that the files repeat. Init is the
-- start of the processors with the calls of the board library as a history that the library
-- answers from, Names the counters for names of tasks and semaphores, Regions the regions without
-- data cache.
--
-- Words are native natural numbers with the wrap-around of the C type written out. Fuel: the wait
-- for a flush in Xdmac.Registers and the search of a stack have fuel; the search needs one more
-- than the number of words. The loop of the elapsed time runs over the list of its rounds. All
-- other loops are recursions on the number of rounds that are left.
--
-- Not modelled: the board library and RTEMS, which are parameters; of the floating-point numbers
-- only what the code relies on; the wait for the reset at the end of Fault_HandlerTail; the
-- example, the tests with their framework, the build files and the linker scripts.

pub mod Broker
pub mod Common
pub mod Core
pub mod Fault
pub mod Hal
pub mod Monitor
pub mod Report
pub mod Threads
pub mod Xdmac
