-- ===== src/Tests.antt =====
-- Runs of the models on small inputs, and the theorems at inputs that meet their hypotheses.
mod Scheduler
mod Ipc
mod Queue
mod Event
mod Drivers
mod Allocator
mod Signal
mod Interrupt
mod PageTable
mod Flash
mod Pwm
mod I2c
mod Touch
mod Spi
mod Timer
mod Uart
mod Dram
